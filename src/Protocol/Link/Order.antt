-- ===== src/Protocol/Link/Order.antt =====
-- What two endpoints of reliable.rs promise each other: the order of what is delivered, and what
-- the sender keeps.
use atemproxy.Prelude.{
  ℕ, suc, ◌+◌, ◌≤◌, ◌≡◌, refl, ap, ap₂, sym, subst, ◌∙◌, List, [], ◌∷◌, ◌++◌, arith, length, take,
  drop, get_or, map, All, Option, none, some, append_assoc, append-nil, take-append-drop, drop_next,
  drop_of_length-le,
}
use atemproxy.Protocol.Error.{ok, err}
use atemproxy.Protocol.Packet.{decode_packet}
use atemproxy.Protocol.Packet.RoundTrip.{carried, carried_of_length-le, decode_packet-encode_packet}
use atemproxy.Protocol.Reliable.{ReliableEndpoint, InFlightEntry}
use atemproxy.Protocol.Reliable.Ids.{advance}
use atemproxy.Protocol.Link.{Link, Run}
use atemproxy.Protocol.Link.Wire.{IsPacket}
use atemproxy.Protocol.Link.State.{full, full-append, Holds, IsLink}
use atemproxy.Protocol.Link.Delivery.{AreFresh, linked, linked-IsLink, Run-IsLink}

abbrev pub Short : List ℕ → Type 0
Short payload = length payload ≤ 2035

pub All-full : (xs : List (List ℕ)) → All Short xs → All Short (full xs)
All-full [] h = tt
All-full ([] ∷ xs) h = All-full xs h.1
All-full ((b ∷ bytes) ∷ xs) h = (h.0, All-full xs h.1)

All-front : (xs ys : List (List ℕ)) → All Short (xs ++ ys) → All Short xs
All-front [] ys h = tt
All-front (x ∷ xs) ys h = (h.0, All-front xs ys h.1)

-- Short payloads are carried as they are.
full-map-carried : (xs : List (List ℕ)) → All Short (full xs) → full (map carried xs) ≡ full xs
full-map-carried [] h = refl
full-map-carried ([] ∷ xs) h =
    ap (λ p. full (p ∷ map carried xs)) (carried_of_length-le [] (omega arith))
    ∙ full-map-carried xs h
full-map-carried ((b ∷ bytes) ∷ xs) h =
    ap (λ p. full (p ∷ map carried xs)) (carried_of_length-le (b ∷ bytes) h.0)
    ∙ ap (◌∷◌ (b ∷ bytes)) (full-map-carried xs h.1)

-- The payloads of the packets sent, and then those queued, are the ones handed to the sender.
split_queued :
    (first : ℕ) (st : Link) (w : IsLink first st)
    → full (take (length st.delivered) st.history)
        ++ (full (drop (length st.delivered) st.history) ++ full st.sender.outbound)
      ≡ full st.queued
split_queued first st w =
    let n = length st.delivered in
    sym
      (append_assoc (full (take n st.history)) (full (drop n st.history)) (full st.sender.outbound))
    ∙ ap (λ q. q ++ full st.sender.outbound)
        (sym (full-append (take n st.history) (drop n st.history))
          ∙ ap full (take-append-drop n st.history))
    ∙ w.content

-- Whatever the network loses, repeats or reorders: the payloads delivered, empty ones left out, are
-- the first ones handed to the sender, in their order, unchanged and each once. The endpoints begin
-- at the same id, at most 256 packets may be in flight, payloads have at most 2035 bytes, and a
-- packet is late by fewer than 32000 packets sent after it.
pub delivered_prefix :
    (first : ℕ) (sender receiver : ReliableEndpoint) (st : Link)
    → AreFresh first sender receiver
    → Run (linked sender receiver) st
    → All Short st.queued
    → (rest : List (List ℕ)) × (full st.delivered ++ rest ≡ full st.queued)
delivered_prefix first sender receiver st fresh run short =
    let w =
      Run-IsLink first (linked sender receiver) st run
        (linked-IsLink first sender receiver fresh) in
    let sent = take (length st.delivered) st.history in
    let rest : List (List ℕ) =
      full (drop (length st.delivered) st.history) ++ full st.sender.outbound in
    let fit : All Short (full sent) =
      All-front (full sent) rest
        (subst (All Short) (sym (split_queued first st w)) (All-full st.queued short)) in
    (
      rest,
      ap (λ q. full q ++ rest) w.got
          ∙ ap (λ q. q ++ rest) (full-map-carried sent fit)
          ∙ split_queued first st w,
    )

-- The payload that a receiver reads of an entry of the window.
pub payload_of : InFlightEntry → Option (List ℕ)
payload_of e = elim (decode_packet e.bytes) [ err _ ↦ none | ok (_, payload) ↦ some payload ]

IsPacket-payload_of :
    (id : ℕ) (payload : List ℕ) (e : InFlightEntry)
    → IsPacket id payload e.bytes
    → payload_of e ≡ some (carried payload)
unfolding payload_of
IsPacket-payload_of id payload e v =
    rw
      (
        ap decode_packet (v.written ∙ sym (append-nil _))
            ∙ decode_packet-encode_packet v.header payload [] v.fits,
        payload_of,
      )
      refl

Holds-payload_of :
    (first i : ℕ) (history : List (List ℕ)) (es : List InFlightEntry)
    → i + length es ≡ length history
    → Holds first history i es
    → map payload_of es ≡ map (λ p. some (carried p)) (drop i history)
Holds-payload_of first i history [] n h = rw (drop_of_length-le i history (omega arith)) refl
Holds-payload_of first i history (e ∷ es) n h =
    ap₂ ◌∷◌ (IsPacket-payload_of (advance i first) (get_or history i []) e h.0)
      (Holds-payload_of first (suc i) history es (omega arith) h.1)
    ∙ ap (map (λ p. some (carried p))) (sym (drop_next i history [] (omega arith)))

-- What the sender keeps of the packets sent, and what the receiver has delivered of them.
pub record Kept (st : Link) : Type 0 where
  pub released : ℕ
  pub delivered_first : released ≤ length st.delivered
  pub kept :
      map payload_of st.sender.in_flight ≡ map (λ p. some (carried p)) (drop released st.history)
  pub got : st.delivered ≡ map carried (take (length st.delivered) st.history)

-- Whatever the network loses, repeats or reorders: a packet leaves the sender's window only after
-- its payload has been delivered, and the window holds the payloads of all packets sent after it,
-- in their order; the payloads delivered are those of the first packets sent. The conditions are
-- those of the order of delivery, but for the length of the payloads, which are cut at 2035 bytes.
pub Run-Kept :
    (first : ℕ) (sender receiver : ReliableEndpoint) (st : Link)
    → AreFresh first sender receiver
    → Run (linked sender receiver) st
    → Kept st
Run-Kept first sender receiver st fresh run =
    let w =
      Run-IsLink first (linked sender receiver) st run
        (linked-IsLink first sender receiver fresh) in
    record {
      released = w.base;
      delivered_first = w.behind;
      kept =
          Holds-payload_of first w.base st.history st.sender.in_flight w.sends.whole w.sends.holds;
      got = w.got;
    }
