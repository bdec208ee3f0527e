-- ===== src/Protocol/Link/Arriving.antt =====
-- accept_reliable of reliable.rs at the receiver's end of a link.
use atemproxy.Prelude.{
  ℕ, suc, ◌+◌, ◌≤◌, ◌<◌, ◌≡◌, refl, ap, ap₂, sym, ◌∙◌, Bool, true, false, List, [], ◌∷◌, ◌++◌,
  arith, length, take, get_or, map, inl, inr, Bool-cases, ◌==◌, ==_iff, map-append, length-append,
  take_next,
}
use atemproxy.Protocol.Error.{Result-cases}
use atemproxy.Protocol.Packet.{PacketHeader, contains, ack_request, is_retransmit, decode_packet}
use atemproxy.Protocol.Packet.RoundTrip.{carried}
use atemproxy.Protocol.Reliable.{ReliableEndpoint, next_packet_id, accept_reliable}
use atemproxy.Protocol.Reliable.Ids.{advance, next-advance}
use atemproxy.Protocol.Link.{Link, accept, receive, In, IsRecent}
use atemproxy.Protocol.Link.State.{IsFrom, IsReceiver, IsLink, All-In}
use atemproxy.Protocol.Link.Ageing.{Acks-more}

pub took :
    (id : ℕ) (retransmit : Bool) (ep : ReliableEndpoint)
    → (id == ep.ack.expected_recv) ≡ true
    → (accept_reliable id retransmit ep).1 ≡ true
unfolding accept_reliable
took id retransmit ep e = rw e refl

pub refused :
    (id : ℕ) (retransmit : Bool) (ep : ReliableEndpoint)
    → (id == ep.ack.expected_recv) ≡ false
    → accept_reliable id retransmit ep ≡ (ep, false)
unfolding accept_reliable
refused id retransmit ep e = ground arith

module _ (first : ℕ) where
  -- Places less than half a circle apart that have the same id.
  pub same_place :
      (i done : ℕ)
      → i < done + 32768
      → done < i + 32768
      → advance i first ≡ advance done first
      → i ≡ done
  unfolding advance
  same_place i done h k e = omega arith

  accepted-IsReceiver :
      (id done : ℕ) (retransmit : Bool) (ep : ReliableEndpoint)
      → (id == ep.ack.expected_recv) ≡ true
      → IsReceiver first done ep
      → IsReceiver first (suc done) (accept_reliable id retransmit ep).0
  unfolding accept_reliable
  accepted-IsReceiver id done retransmit ep e w = rw e (record {
    fits = w.fits;
    expected = ap next_packet_id w.expected ∙ next-advance done first;
    last = λ k h. (done, refl, cc (h, (==_iff id ep.ack.expected_recv).0 e, w.expected));
  })

  -- The packet at the place that the receiver expects is delivered.
  deliver-IsLink :
      (h : PacketHeader) (p : List ℕ) (st : Link)
      → (h.packet_id == st.receiver.ack.expected_recv) ≡ true
      → length st.delivered < length st.history
      → p ≡ carried (get_or st.history (length st.delivered) [])
      → IsLink first st
      → IsLink first (accept h p st)
  deliver-IsLink h p st e room body w =
      let n : length (st.delivered ++ p ∷ []) ≡ suc (length st.delivered) =
        omega (arith, length-append st.delivered (p ∷ [])) in
      rw (took h.packet_id (contains h.flags is_retransmit) st.receiver e) (record {
        base = w.base;
        behind = omega (arith, w.behind);
        ahead = omega arith;
        sends = w.sends;
        receives = rw n (
            accepted-IsReceiver h.packet_id (length st.delivered) (contains h.flags is_retransmit)
              st.receiver e w.receives);
        packets = w.packets;
        answers =
            Acks-more first (length st.history) (length st.history) (length st.delivered)
              (length (st.delivered ++ p ∷ [])) st.acks (omega arith) (omega arith) w.answers;
        got =
            ap₂ (λ xs x. xs ++ x ∷ []) w.got body
            ∙ sym (map-append carried (take (length st.delivered) st.history) _)
            ∙ ap (map carried) (
                sym (take_next (length st.delivered) st.history [] room)
                ∙ ap (λ k. take k st.history) (sym n));
        content = w.content;
      })

  accept-IsLink :
      (h : PacketHeader) (p : List ℕ) (t i : ℕ) (st : Link)
      → t ≤ length st.history
      → IsRecent t st
      → i < t
      → t ≤ i + 256
      → h.packet_id ≡ advance i first
      → p ≡ carried (get_or st.history i [])
      → IsLink first st
      → IsLink first (accept h p st)
  accept-IsLink h p t i st at recent low high id body w =
      elim (Bool-cases (h.packet_id == st.receiver.ack.expected_recv)) [
        | inl e ↦
            let place : i ≡ length st.delivered =
              same_place i (length st.delivered)
                (omega (arith, w.behind, w.sends.whole, w.sends.bounded, w.sends.small))
                (omega (arith, w.ahead))
                (sym id
                  ∙ (==_iff h.packet_id st.receiver.ack.expected_recv).0 e
                  ∙ w.receives.expected) in
            deliver-IsLink h p st e (omega arith)
              (body ∙ ap (λ k. carried (get_or st.history k [])) place) w
        | inr e ↦ rw (refused h.packet_id (contains h.flags is_retransmit) st.receiver e) w
      ]

  -- A packet reaches the receiver.
  pub receive-IsLink :
      (t : ℕ) (bytes : List ℕ) (st : Link)
      → In (t, bytes) st.wire
      → IsRecent t st
      → IsLink first st
      → IsLink first (receive bytes st)
  unfolding receive
  receive-IsLink t bytes st in_ recent w =
      let (at, from) = All-In (IsFrom first st.history) (t, bytes) st.wire w.packets in_ in
      elim (Result-cases (decode_packet bytes)) [
        | inr (e, read) ↦ rw (read, receive) w
        | inl ((h, p), read) ↦ elim (Bool-cases (contains h.flags ack_request)) [
          | inl asks ↦
              let (i, low, high, id, body) = from h p read asks in
              rw (read, receive, asks) (accept-IsLink h p t i st at recent low high id body w)
          | inr silent ↦ rw (read, receive, silent) w
        ]
      ]
