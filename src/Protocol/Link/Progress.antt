-- ===== src/Protocol/Link/Progress.antt =====
-- poll_outbound of reliable.rs when packets of the window are due to be sent again.
use atemproxy.Prelude.{
  bit_or, ℕ, zero, suc, ◌+◌, ◌-◌, ◌<◌, ◌≡◌, refl, ap, sym, subst, ◌∙◌, true, inl, inr, List, [],
  ◌∷◌, ◌++◌, arith, length, get_or, map, ◌==◌, ==_iff,
}
use atemproxy.Protocol.Error.{ok}
use atemproxy.Protocol.Packet.{contains, ack_request, is_retransmit, decode_packet}
use atemproxy.Protocol.Packet.RoundTrip.{carried, sealed_header}
use atemproxy.Protocol.Reliable.{Millis, ReliableEndpoint, InFlightEntry}
use atemproxy.Protocol.Reliable.Ids.{advance}
use atemproxy.Protocol.Outbound.{
  resend, mark_retransmit, is_stale, retransmit_window, poll_outbound,
}
use atemproxy.Protocol.Outbound.Retransmit.{sent_again, decode_packet-mark_retransmit}
use atemproxy.Protocol.Link.{Link, poll, receive, stamped, In, Run}
use atemproxy.Protocol.Link.Wire.{IsPacket}
use atemproxy.Protocol.Link.State.{Holds}
use atemproxy.Protocol.Link.Arriving.{took}
use atemproxy.Protocol.Link.Delivery.{AreFresh, linked, linked-IsLink, Run-IsLink}

In-append : {A : Type 0} (x : A) (xs ys : List A) → In x xs → In x (xs ++ ys)
In-append x (y ∷ xs) ys (inl e) = inl e
In-append x (y ∷ xs) ys (inr i) = inr (In-append x xs ys i)
In-append x [] ys i = absurd i

In-map : {A B : Type 0} (f : A → B) (x : A) (xs : List A) → In x xs → In (f x) (map f xs)
In-map f x (y ∷ xs) (inl e) = inl (ap f e)
In-map f x (y ∷ xs) (inr i) = inr (In-map f x xs i)
In-map f x [] i = absurd i

next_place : (i n : ℕ) → suc i + n ≡ i + suc n
next_place i n = omega arith

-- The entry of the window at a place.
Holds-at :
    (first i n : ℕ) (history : List (List ℕ)) (es : List InFlightEntry)
    → n < length es
    → Holds first history i es
    → (e : InFlightEntry) × In e es
      × IsPacket (advance (i + n) first) (get_or history (i + n) []) e.bytes
Holds-at first i n history [] l h = absurd (omega arith)
Holds-at first i zero history (e ∷ es) l h = (
  e,
  inl refl,
  subst (λ k. IsPacket (advance k first) (get_or history k []) e.bytes) (omega arith) h.0,
)
Holds-at first i (suc n) history (e ∷ es) l h =
    let (x, there, is_) = Holds-at first (suc i) n history es (omega arith) h.1 in
    (
      x,
      inr there,
      subst (λ k. IsPacket (advance k first) (get_or history k []) x.bytes) (next_place i n) is_,
    )

-- A packet of the window is emitted again.
resend-emitted :
    (now clock : Millis) (e : InFlightEntry) (ep : ReliableEndpoint)
    → is_stale now ep ≡ true
    → In e ep.in_flight
    → In (resend e) (poll_outbound now clock ep).1
unfolding poll_outbound retransmit_window
resend-emitted now clock e ep stale i =
    rw stale (In-append (resend e) (map resend ep.in_flight) _ (In-map resend e ep.in_flight i))

asks_again :
    (flags : ℕ) → flags ≡ ack_request → contains (bit_or flags is_retransmit) ack_request ≡ true
unfolding contains
asks_again flags e = rw e refl

-- The packet at the place that the receiver expects is accepted when it is sent again.
receive-resent :
    (id : ℕ) (payload : List ℕ) (bytes : List ℕ) (st : Link)
    → IsPacket id payload bytes
    → id ≡ st.receiver.ack.expected_recv
    → (receive (mark_retransmit bytes) st).delivered ≡ st.delivered ++ carried payload ∷ []
unfolding receive
receive-resent id payload bytes st v e =
    let again = sent_again v.header in
    let read : decode_packet (mark_retransmit bytes)
        ≡ ok (sealed_header again payload, carried payload) =
      ap (λ b. decode_packet (mark_retransmit b)) v.written
      ∙ decode_packet-mark_retransmit v.header payload v.fits in
    let asks : contains again.flags ack_request ≡ true = asks_again v.header.flags v.asks in
    let same : (v.header.packet_id == st.receiver.ack.expected_recv) ≡ true =
      (==_iff v.header.packet_id st.receiver.ack.expected_recv).1 (v.has_id ∙ e) in
    rw
      (
        read,
        receive,
        asks,
        took v.header.packet_id (contains again.flags is_retransmit) st.receiver same,
      )
      refl

In-stamped :
    (n : ℕ) (bytes : List ℕ) (out : List (List ℕ)) → In bytes out → In (n, bytes) (stamped n out)
In-stamped n bytes (x ∷ out) (inl e) = inl (ap (λ b. (n, b)) e)
In-stamped n bytes (x ∷ out) (inr i) = inr (In-stamped n bytes out i)
In-stamped n bytes [] i = absurd i

-- A packet on the wire of a link that delivers the payload at a place.
pub record Delivers (place : ℕ) (payload : List ℕ) (st : Link) : Type 0 where
  pub bytes : List ℕ
  pub on_wire : In (place, bytes) st.wire
  pub delivers : (receive bytes st).delivered ≡ st.delivered ++ payload ∷ []

-- If a packet sent is not delivered yet and the oldest of the window is older than the time to wait
-- before packets are sent again, `poll_outbound` emits a packet whose arrival delivers the first
-- payload that is missing. It was sent among the packets counted so far. The link is one that two
-- endpoints reach which begin at the same id.
pub retransmission-Delivers :
    (first : ℕ) (sender receiver : ReliableEndpoint) (now clock : Millis) (st : Link)
    → AreFresh first sender receiver
    → Run (linked sender receiver) st
    → length st.delivered < length st.history
    → is_stale now st.sender ≡ true
    → Delivers
        (length (poll now clock st).history)
        (carried (get_or st.history (length st.delivered) []))
        (poll now clock st)
retransmission-Delivers first sender receiver now clock st fresh run missing stale =
    let w =
      Run-IsLink first (linked sender receiver) st run
        (linked-IsLink first sender receiver fresh) in
    let n : ℕ = length st.delivered - w.base in
    let place : w.base + n ≡ length st.delivered = omega (arith, w.behind) in
    let (e, there, is_) =
      Holds-at first w.base n st.history st.sender.in_flight
        (omega (arith, w.sends.whole, w.behind)) w.sends.holds in
    let packet : IsPacket (advance (length st.delivered) first)
        (get_or st.history (length st.delivered) []) e.bytes =
      subst (λ k. IsPacket (advance k first) (get_or st.history k []) e.bytes) place is_ in
    record {
      bytes = resend e;
      on_wire =
          In-append _
            (stamped (length (poll now clock st).history) (poll_outbound now clock st.sender).1)
            st.wire
            (In-stamped (length (poll now clock st).history) (resend e) _
              (resend-emitted now clock e st.sender stale there));
      delivers = receive-resent _ _ e.bytes (poll now clock st) packet (sym w.receives.expected);
    }
