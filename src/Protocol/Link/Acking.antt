-- ===== src/Protocol/Link/Acking.antt =====
-- build_ack_packet and on_ack_id of reliable.rs at the two ends of a link.
use atemproxy.Prelude.{
  ℕ, zero, suc, ◌+◌, ◌-◌, ◌≤◌, ◌<◌, ◌≡◌, refl, ap, sym, subst, ◌∙◌, false, not, ◌||◌, List, [], ◌∷◌,
  arith, length, drop, length-drop, inl, inr, Bool-cases, ◌==◌, ltb,
}
use atemproxy.Protocol.Error.{Result-cases}
use atemproxy.Protocol.Packet.{contains, ack_reply, decode_packet}
use atemproxy.Protocol.Reliable.{
  Millis, ReliableEndpoint, InFlightEntry, ack_packet, is_ack_covering, pop_covered, on_ack_id,
}
use atemproxy.Protocol.Reliable.Ids.{advance, ids_from, advance-lt, advance-advance}
use atemproxy.Protocol.Outbound.Window.{ids}
use atemproxy.Protocol.Outbound.Acks.{pop_window, ids-drop, drop-ids_from}
use atemproxy.Protocol.Link.{Link, acknowledge, take_ack, In, IsRecent}
use atemproxy.Protocol.Link.Wire.{IsAck, ack_packet-IsAck, ack_if_due-cases}
use atemproxy.Protocol.Link.State.{Acks, Holds, IsSender, IsLink, All-In}

module _ (first : ℕ) where
  pub acknowledge-IsLink :
      (clock : Millis) (st : Link) → IsLink first st → IsLink first (acknowledge clock st)
  unfolding acknowledge
  acknowledge-IsLink clock st w = elim (ack_if_due-cases clock st.receiver) [
    | inl e ↦ rw (e, acknowledge) w
    | inr (id, highest, e) ↦
        let (a, next, same) = w.receives.last id highest in
        rw (e, acknowledge)
          (record {
            base = w.base;
            behind = w.behind;
            ahead = w.ahead;
            sends = w.sends;
            receives = record {
              fits = w.receives.fits;
              expected = w.receives.expected;
              last = w.receives.last;
            };
            packets = w.packets;
            answers = (
              (
                omega arith,
                (
                  a,
                  omega arith,
                  omega (arith, w.behind, w.sends.whole, w.sends.bounded, w.sends.small),
                  subst (λ k. IsAck k (ack_packet st.receiver id)) same
                      (ack_packet-IsAck st.receiver id w.receives.fits
                        (omega (arith, same, advance-lt a first))),
                ),
              ),
              w.answers,
            );
            got = w.got;
            content = w.content;
          })
  ]

  Holds-drop :
      (n : ℕ) (history : List (List ℕ)) (i : ℕ) (es : List InFlightEntry)
      → n ≤ length es
      → Holds first history i es
      → Holds first history (i + n) (drop n es)
  Holds-drop zero history i es l h = subst (λ k. Holds first history k es) (omega arith) h
  Holds-drop (suc n) history i [] l h = tt
  Holds-drop (suc n) history i (e ∷ es) l h =
      subst (λ k. Holds first history k (drop n es)) (omega arith)
        (Holds-drop n history (suc i) es (omega arith) h.1)

  -- The packets before a place leave the window.
  release-IsSender :
      (n base : ℕ) (history : List (List ℕ)) (ep : ReliableEndpoint)
      → n ≤ length ep.in_flight
      → IsSender first base history ep
      → IsSender first (base + n) history (record ep { in_flight = drop n ep.in_flight })
  release-IsSender n base history ep l w =
      let m = length-drop n ep.in_flight in
      record {
        whole = omega (arith, w.whole);
        in_row =
            ids-drop n ep.in_flight
            ∙ ap (drop n) w.in_row
            ∙ drop-ids_from n (length ep.in_flight) (advance base first) l (advance-lt base first)
            ∙ ap (ids_from (advance n (advance base first))) (sym m)
            ∙ ap (λ k. ids_from k (length (drop n ep.in_flight))) (advance-advance n base first);
        next_id = w.next_id;
        bounded = omega (arith, w.bounded);
        positive = w.positive;
        small = w.small;
        fits = w.fits;
        own = w.own;
        holds = Holds-drop n history base ep.in_flight l w.holds;
      }

  -- An old acknowledgement covers nothing of the window.
  stale :
      (a base : ℕ)
      → a < base
      → base < a + 32500
      → is_ack_covering (advance a first) (advance base first) ≡ false
  unfolding is_ack_covering advance
  stale a base h k = ground arith

  stale-pop_covered :
      (a base : ℕ) (es : List InFlightEntry)
      → a < base
      → base < a + 32500
      → ids es ≡ ids_from (advance base first) (length es)
      → pop_covered (advance a first) es ≡ es
  unfolding pop_covered
  stale-pop_covered a base [] h k e = refl
  stale-pop_covered a base (x ∷ es) h k e =
      let front : x.packet_id ≡ advance base first = cc in
      rw (ap (is_ack_covering (advance a first)) front ∙ stale a base h k) refl

  on_ack_id-IsLink :
      (a t : ℕ) (st : Link)
      → a < length st.delivered
      → t ≤ a + 257
      → IsRecent t st
      → IsLink first st
      → IsLink first (record st { sender = on_ack_id (advance a first) st.sender })
  unfolding on_ack_id
  on_ack_id-IsLink a t st low high recent w = elim (Bool-cases (ltb a w.base)) [
    | inl old ↦
        rw
          (stale-pop_covered a w.base st.sender.in_flight (ground arith)
            (omega (arith, w.sends.whole)) w.sends.in_row)
          w
    | inr new_ ↦
        let k : ℕ = a - w.base in
        let place : w.base + k ≡ a = ground arith in
        let inside : k < length st.sender.in_flight = omega (arith, w.sends.whole, w.ahead) in
        let released : pop_covered (advance a first) st.sender.in_flight
            ≡ drop (suc k) st.sender.in_flight =
          ap (λ m. pop_covered m st.sender.in_flight)
            (ap (λ m. advance m first) (sym place) ∙ sym (advance-advance k w.base first))
          ∙ pop_window k (advance w.base first) st.sender.in_flight (advance-lt w.base first)
              w.sends.in_row inside (omega (arith, w.sends.bounded, w.sends.small)) in
        rw released (record {
          base = w.base + suc k;
          behind = omega arith;
          ahead = w.ahead;
          sends = release-IsSender (suc k) w.base st.history st.sender inside w.sends;
          receives = w.receives;
          packets = w.packets;
          answers = w.answers;
          got = w.got;
          content = w.content;
        })
  ]

  -- An acknowledgement reaches the sender.
  pub take_ack-IsLink :
      (t : ℕ) (bytes : List ℕ) (st : Link)
      → In (t, bytes) st.acks
      → IsRecent t st
      → IsLink first st
      → IsLink first (take_ack bytes st)
  unfolding take_ack IsAck
  take_ack-IsLink t bytes st in_ recent w =
      let (at, (a, low, high, is_)) =
        All-In (Acks first (length st.history) (length st.delivered)) (t, bytes) st.acks w.answers
          in_ in
      elim (Result-cases (decode_packet bytes)) [
        | inr (e, read) ↦ rw (read, take_ack) w
        | inl ((h, p), read) ↦
            elim (Bool-cases (contains h.flags ack_reply || not (h.ack_id == 0))) [
              | inl answers ↦
                  rw (read, take_ack, answers, (is_ h p read).0)
                    (on_ack_id-IsLink a t st low high recent w)
              | inr silent ↦ rw (read, take_ack, silent) w
            ]
      ]
