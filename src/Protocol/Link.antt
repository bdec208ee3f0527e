-- ===== src/Protocol/Link.antt =====
-- Two endpoints of reliable.rs and the network between them: what one queues and the other accepts,
-- as server.rs and upstream.rs drive them. The network loses, repeats and reorders packets.
pub mod Wire
pub mod State
pub mod Holding
pub mod Sending
pub mod Ageing
pub mod Launching
pub mod Polling
pub mod Arriving
pub mod Acking
pub mod Delivery
pub mod Order
pub mod Stall
pub mod Progress
mod Tests
use atemproxy.Prelude.{
  ℕ, ◌+◌, ◌-◌, ◌<◌, ◌≡◌, ◌⊎◌, Bool, true, false, not, ◌||◌, List, [], ◌∷◌, ◌++◌, ◌==◌,
  if◌then◌else◌, length, take, map, All,
}
use atemproxy.Protocol.Error.{ok, err}
use atemproxy.Protocol.Packet.{
  PacketHeader, contains, ack_request, ack_reply, is_retransmit, decode_packet,
}
use atemproxy.Protocol.Reliable.{
  Millis, ReliableEndpoint, queue_payload, on_ack_id, accept_reliable,
}
use atemproxy.Protocol.Outbound.{retransmit_window, send_loop, ack_if_due, is_idle, poll_outbound}

-- `queued` has the payloads handed to the sender, `history` those of the packets that it has sent,
-- a keepalive's empty one included, and `delivered` those that the receiver has accepted. A packet
-- on the way stands with the number of packets that had been sent when it was.
pub record Link : Type 0 where
  pub sender : ReliableEndpoint
  pub receiver : ReliableEndpoint
  pub queued : List (List ℕ)
  pub history : List (List ℕ)
  pub wire : List (ℕ × List ℕ)
  pub acks : List (ℕ × List ℕ)
  pub delivered : List (List ℕ)

-- The payloads that `poll_outbound` sends for the first time: the front of the queue, then the
-- keepalive.
unfoldable pub launched : Millis → Millis → ReliableEndpoint → List (List ℕ)
launched now clock ep =
    let ep₁ = (retransmit_window now ep).0 in
    let ep₂ = (send_loop now ep₁.outbound ep₁).0 in
    let ep₃ = (ack_if_due clock ep₂).0 in
    take (length ep₁.outbound - length ep₂.outbound) ep₁.outbound
    ++ (if is_idle now ep₃ then [] ∷ [] else [])

abbrev pub stamped : ℕ → List (List ℕ) → List (ℕ × List ℕ)
stamped n = map (λ bytes. (n, bytes))

abbrev pub queue : List ℕ → Link → Link
queue payload st = record st {
  sender = queue_payload payload st.sender;
  queued = st.queued ++ payload ∷ [];
}

abbrev pub poll : Millis → Millis → Link → Link
poll now clock st =
    let history = st.history ++ launched now clock st.sender in
    let (ep, out) = poll_outbound now clock st.sender in
    record st { sender = ep; history = history; wire = stamped (length history) out ++ st.wire }

abbrev pub accept : PacketHeader → List ℕ → Link → Link
accept h payload st =
    let (ep, ok_) = accept_reliable h.packet_id (contains h.flags is_retransmit) st.receiver in
    record st {
      receiver = ep;
      delivered = if ok_ then st.delivered ++ payload ∷ [] else st.delivered;
    }

-- A packet reaches the receiver.
unfoldable pub receive : List ℕ → Link → Link
receive bytes st = elim (decode_packet bytes) [
  | err _ ↦ st
  | ok (h, payload) ↦ if contains h.flags ack_request then accept h payload st else st
]

unfoldable pub acknowledge : Millis → Link → Link
acknowledge clock st =
    let (ep, out) = ack_if_due clock st.receiver in
    record st { receiver = ep; acks = stamped (length st.history) out ++ st.acks }

-- An acknowledgement reaches the sender.
unfoldable pub take_ack : List ℕ → Link → Link
take_ack bytes st = elim (decode_packet bytes) [
  | err _ ↦ st
  | ok (h, payload) ↦
      if contains h.flags ack_reply || not (h.ack_id == 0)
      then record st { sender = on_ack_id h.ack_id st.sender }
      else st
]

abbrev pub In : {A : Type 0} → A → List A → Type 0
In x [] = ⊥
In x (y ∷ ys) = (x ≡ y) ⊎ In x ys

-- A packet may be late, but not by 32000 packets sent after it.
abbrev pub IsRecent : ℕ → Link → Type 0
IsRecent t st = length st.history < t + 32000

pub data Step : Link → Link → Type 0 where
  queues : (payload : List ℕ) (st : Link) → Step st (queue payload st)
  polls : (now clock : Millis) (st : Link) → Step st (poll now clock st)
  arrives :
      (t : ℕ) (bytes : List ℕ) (st : Link)
      → In (t, bytes) st.wire
      → IsRecent t st
      → Step st (receive bytes st)
  acknowledges : (clock : Millis) (st : Link) → Step st (acknowledge clock st)
  ack_arrives :
      (t : ℕ) (bytes : List ℕ) (st : Link)
      → In (t, bytes) st.acks
      → IsRecent t st
      → Step st (take_ack bytes st)
  loses :
      (wire acks : List (ℕ × List ℕ)) (st : Link)
      → All (λ p. In p st.wire) wire
      → All (λ p. In p st.acks) acks
      → Step st (record st { wire = wire; acks = acks })

pub data Run : Link → Link → Type 0 where
  start : (st : Link) → Run st st
  then_ : (st st' st'' : Link) → Run st st' → Step st' st'' → Run st st''
