-- ===== src/Protocol/Link/State.antt =====
-- What holds of a link at every time: the window of the sender, what the receiver expects and what
-- is on its way, as places in the list of the packets sent.
use atemproxy.Prelude.{
  ℕ, suc, ◌+◌, ◌≤◌, ◌<◌, ◌≡◌, refl, ap, sym, subst, true, List, [], ◌∷◌, ◌++◌, length, take, get_or,
  map, All, some, Option, inl, inr,
}
use atemproxy.Protocol.Error.{ok}
use atemproxy.Protocol.Packet.{PacketHeader, contains, ack_request, decode_packet}
use atemproxy.Protocol.Packet.RoundTrip.{carried}
use atemproxy.Protocol.Reliable.{ReliableEndpoint, InFlightEntry}
use atemproxy.Protocol.Reliable.Ids.{advance, ids_from}
use atemproxy.Protocol.Outbound.Window.{ids}
use atemproxy.Protocol.Link.{Link, In}
use atemproxy.Protocol.Link.Wire.{IsPacket, IsAck}

-- The payloads that are not empty.
abbrev pub full : List (List ℕ) → List (List ℕ)
full [] = []
full ([] ∷ payloads) = full payloads
full ((b ∷ bytes) ∷ payloads) = (b ∷ bytes) ∷ full payloads

pub full-append : (xs ys : List (List ℕ)) → full (xs ++ ys) ≡ full xs ++ full ys
full-append [] ys = refl
full-append ([] ∷ xs) ys = full-append xs ys
full-append ((b ∷ bytes) ∷ xs) ys = ap (◌∷◌ (b ∷ bytes)) (full-append xs ys)

module _ (first : ℕ) where
  -- A packet on the wire that is to be delivered was one of the last 256 at the time.
  abbrev pub IsFrom : List (List ℕ) → ℕ × List ℕ → Type 0
  IsFrom history (t, bytes) =
      (t ≤ length history)
      × ((h : PacketHeader) (p : List ℕ)
          → decode_packet bytes ≡ ok (h, p)
          → contains h.flags ack_request ≡ true
          → (i : ℕ) × (i < t)
            × (t ≤ i + 256)
            × (h.packet_id ≡ advance i first)
            × (p ≡ carried (get_or history i [])))

  -- An acknowledgement is of a packet delivered, one of the last 256 at the time.
  abbrev pub Acks : ℕ → ℕ → ℕ × List ℕ → Type 0
  Acks sent done (t, bytes) =
      (t ≤ sent) × ((a : ℕ) × (a < done) × (t ≤ a + 257) × IsAck (advance a first) bytes)

  -- The entries of the window from place `i` on.
  abbrev pub Holds : List (List ℕ) → ℕ → List InFlightEntry → Type 0
  Holds history i [] = Unit
  Holds history i (e ∷ es) =
      IsPacket (advance i first) (get_or history i []) e.bytes × Holds history (suc i) es

  -- The sender's window, next id, `max_in_flight`, session and highest id received: `base` packets
  -- of the history are acknowledged, the rest are in the window.
  pub record Sends (base : ℕ) (history : List (List ℕ)) (es : List InFlightEntry)
      (next max session : ℕ) (highest : Option ℕ) : Type 0 where
    pub whole : base + length es ≡ length history
    pub in_row : ids es ≡ ids_from (advance base first) (length es)
    pub next_id : next ≡ advance (length history) first
    pub bounded : length es ≤ max
    pub positive : 0 < max
    pub small : max ≤ 256
    pub fits : session < 65536
    pub own : (id : ℕ) → highest ≡ some id → id < 65536
    pub holds : Holds history base es

  abbrev pub IsSender : ℕ → List (List ℕ) → ReliableEndpoint → Type 0
  IsSender base history ep =
      Sends base history ep.in_flight ep.next_send_id ep.config.max_in_flight ep.session_id
        ep.ack.highest_recv

  pub record Receives (done expected_id session : ℕ) (highest : Option ℕ) : Type 0 where
    pub fits : session < 65536
    pub expected : expected_id ≡ advance done first
    pub last : (id : ℕ) → highest ≡ some id → (a : ℕ) × (suc a ≡ done) × (id ≡ advance a first)

  abbrev pub IsReceiver : ℕ → ReliableEndpoint → Type 0
  IsReceiver done ep = Receives done ep.ack.expected_recv ep.session_id ep.ack.highest_recv

  pub record IsLink (st : Link) : Type 0 where
    pub base : ℕ
    pub behind : base ≤ length st.delivered
    pub ahead : length st.delivered ≤ length st.history
    pub sends : IsSender base st.history st.sender
    pub receives : IsReceiver (length st.delivered) st.receiver
    pub packets : All (IsFrom st.history) st.wire
    pub answers : All (Acks (length st.history) (length st.delivered)) st.acks
    pub got : st.delivered ≡ map carried (take (length st.delivered) st.history)
    pub content : full st.history ++ full st.sender.outbound ≡ full st.queued

pub All-In : {A : Type 0} (P : A → Type 0) (x : A) (xs : List A) → All P xs → In x xs → P x
All-In P x [] h i = absurd i
All-In P x (y ∷ ys) h (inl e) = subst P (sym e) h.0
All-In P x (y ∷ ys) h (inr i) = All-In P x ys h.1 i
