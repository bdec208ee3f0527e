-- ===== src/Protocol/Outbound.antt =====
-- crates/atem-protocol/src/reliable.rs: `poll_outbound`, part by part.
pub mod Window
pub mod Sending
pub mod Carrying
pub mod Acks
pub mod Retransmit
pub mod Sound
mod Tests
use atemproxy.Prelude.{
  ℕ, ◌+◌, ◌-◌, ◌*◌, ◌/◌, ◌%◌, ◌^◌, bit_and, bit_or, Bool, true, false, ◌&&◌, none, some, List, [],
  ◌∷◌, ◌++◌, ltb, leb, if◌then◌else◌, length, is_empty, map,
}
use atemproxy.Prelude.Bytes.{to_be_bytes, from_be_bytes}
use atemproxy.Protocol.Packet.{new, ack_request, is_retransmit, header_len, encode_packet}
use atemproxy.Protocol.Reliable.{
  Millis, ReliableEndpoint, InFlightEntry, next_packet_id, should_send_ack, build_ack_packet,
}

-- The copy of a packet that is sent again: its retransmit flag set.
unfoldable pub mark_retransmit : List ℕ → List ℕ
mark_retransmit [] = []
mark_retransmit (b ∷ []) = b ∷ []
mark_retransmit (b₀ ∷ b₁ ∷ rest) =
    let fl = from_be_bytes b₀ b₁ in
    let flags = bit_or (fl / 2 ^ 11 % 256) is_retransmit in
    to_be_bytes (bit_or (flags * 2 ^ 11 % 2 ^ 16) (bit_and fl 0x07ff)) ++ rest

-- `now.duration_since(oldest.sent_at) >= retransmit_after`, for the front of the window.
unfoldable pub is_stale : Millis → ReliableEndpoint → Bool
is_stale now ep = elim ep.in_flight [
  | [] ↦ false
  | oldest ∷ _ ↦ leb ep.config.retransmit_after (now - oldest.sent_at)
]

abbrev pub restamp : Millis → InFlightEntry → InFlightEntry
restamp now e = record e { sent_at = now }

abbrev pub resent : Millis → ReliableEndpoint → ReliableEndpoint
resent now ep = record ep { in_flight = map (restamp now) ep.in_flight }

abbrev pub resend : InFlightEntry → List ℕ
resend e = mark_retransmit e.bytes

-- The first part of `poll_outbound`.
unfoldable pub retransmit_window : Millis → ReliableEndpoint → ReliableEndpoint × List (List ℕ)
retransmit_window now ep =
    if is_stale now ep then (resent now ep, map resend ep.in_flight) else (ep, [])

abbrev pub reliable_packet : ReliableEndpoint → List ℕ → List ℕ
reliable_packet ep payload =
    encode_packet
      (record (new ack_request ep.session_id ((header_len + length payload) % 2 ^ 16)) {
        packet_id = ep.next_send_id;
      })
      payload

-- A packet takes the next id and joins the window.
unfoldable pub launch : Millis → List ℕ → ReliableEndpoint → ReliableEndpoint
launch now payload ep = record ep {
  next_send_id = next_packet_id ep.next_send_id;
  in_flight =
      ep.in_flight
      ++ (record { packet_id = ep.next_send_id; bytes = reliable_packet ep payload; sent_at = now }
          ∷ []);
}

-- The second part: payloads leave the queue while the window has room. The list is the queue.
unfoldable pub send_loop :
    Millis → List (List ℕ) → ReliableEndpoint → ReliableEndpoint × List (List ℕ)
send_loop now [] ep = (record ep { outbound = [] }, [])
send_loop now (payload ∷ queue) ep =
    let (ep', out) = send_loop now queue (launch now payload ep) in
    if ltb (length ep.in_flight) ep.config.max_in_flight
    then (ep', reliable_packet ep payload ∷ out)
    else (record ep { outbound = payload ∷ queue }, [])

-- The third part; `clock` is the time that `elapsed` and `Instant::now` read.
unfoldable pub ack_if_due : Millis → ReliableEndpoint → ReliableEndpoint × List (List ℕ)
ack_if_due clock ep =
    if should_send_ack clock ep
    then (let (ep', packet) = build_ack_packet clock ep in
        (ep', elim packet [ none ↦ [] | some p ↦ p ∷ [] ]))
    else (ep, [])

-- Open, nothing in flight, nothing queued, and the interval over.
abbrev pub is_idle : Millis → ReliableEndpoint → Bool
is_idle now ep =
    ep.opened
    && is_empty ep.in_flight
    && is_empty ep.outbound
    && leb ep.config.ping_interval (now - ep.last_ping_at)

abbrev pub pinged : Millis → ReliableEndpoint → ReliableEndpoint
pinged now ep = record (launch now [] ep) { last_ping_at = now }

-- The last part: a keepalive when nothing else is under way.
unfoldable pub ping_if_idle : Millis → ReliableEndpoint → ReliableEndpoint × List (List ℕ)
ping_if_idle now ep =
    if is_idle now ep then (pinged now ep, reliable_packet ep [] ∷ []) else (ep, [])

unfoldable pub poll_outbound : Millis → Millis → ReliableEndpoint → ReliableEndpoint × List (List ℕ)
poll_outbound now clock ep =
    let (ep₁, again) = retransmit_window now ep in
    let (ep₂, fresh) = send_loop now ep₁.outbound ep₁ in
    let (ep₃, acks) = ack_if_due clock ep₂ in
    let (ep₄, pings) = ping_if_idle now ep₃ in (ep₄, again ++ (fresh ++ (acks ++ pings)))
