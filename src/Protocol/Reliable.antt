-- ===== src/Protocol/Reliable.antt =====
-- crates/atem-protocol/src/reliable.rs: packet ids, acknowledgements, the window of packets in
-- flight and the queue before it. Times are numbers of milliseconds; a call that reads the clock
-- takes the reading as an argument. What `poll_outbound` sends is in `Outbound`.
pub mod Ids
pub mod Packing
pub mod Delivery
mod Tests
use atemproxy.Prelude.{
  ℕ, zero, suc, ◌+◌, ◌-◌, ◌*◌, ◌/◌, ◌%◌, ◌^◌, bit_and, bit_or, Bool, true, false, not, ◌&&◌, ◌||◌,
  Option, none, some, List, [], ◌∷◌, ◌++◌, ltb, leb, ◌==◌, if◌then◌else◌, length, is_empty, map,
  min,
}
use atemproxy.Prelude.Bytes.{to_be_bytes, from_be_bytes}
use atemproxy.Protocol.Packet.{
  PacketHeader, new, ack_request, ack_reply, is_retransmit, retransmit_request_flag, header_len,
  max_packet_len, flags_len, encode_packet,
}

abbrev pub max_packet_id : ℕ
max_packet_id = 2 ^ 15

-- `Duration` and `Instant`.
abbrev pub Millis : Type 0
Millis = ℕ

pub record ReliableConfig : Type 0 where
  pub max_in_flight : ℕ
  pub retransmit_after : Millis
  pub ack_coalesce_count : ℕ
  pub ack_coalesce_after : Millis
  pub ping_interval : Millis
  pub idle_timeout : Millis

abbrev pub default_config : ReliableConfig
default_config = record {
  max_in_flight = 32;
  retransmit_after = 30;
  ack_coalesce_count = 16;
  ack_coalesce_after = 5;
  ping_interval = 100;
  idle_timeout = 1000;
}

-- `current + 1` is a `u16`, which wraps before the remainder is taken.
unfoldable pub next_packet_id : ℕ → ℕ
next_packet_id current = (current + 1) % 2 ^ 16 % max_packet_id

-- The subtraction is of `i32`s, and Rust's `%` keeps the sign of its left side: where
-- `ack_id + MAX_PACKET_ID` is below `packet_id` the remainder is at most 0, so below 256.
unfoldable pub is_ack_covering : ℕ → ℕ → Bool
is_ack_covering ack_id packet_id =
    if ack_id == packet_id
    then true
    else (if ltb (ack_id + max_packet_id) packet_id
        then true
        else ltb ((ack_id + max_packet_id - packet_id) % max_packet_id) 256)

pub record InFlightEntry : Type 0 where
  pub packet_id : ℕ
  pub bytes : List ℕ
  pub sent_at : Millis

pub record AckState : Type 0 where
  pub highest_recv : Option ℕ
  pub expected_recv : ℕ
  pub last_ack_sent_at : Option Millis
  pub packets_since_ack : ℕ
  pub need_init_ack : Bool

-- The front of a `VecDeque` is the head of its list.
pub record ReliableEndpoint : Type 0 where
  pub session_id : ℕ
  pub next_send_id : ℕ
  pub config : ReliableConfig
  pub in_flight : List InFlightEntry
  pub outbound : List (List ℕ)
  pub ack : AckState
  pub last_recv_at : Millis
  pub last_ping_at : Millis
  pub opened : Bool

abbrev pub default_ack : AckState
default_ack = record {
  highest_recv = none;
  expected_recv = 0;
  last_ack_sent_at = none;
  packets_since_ack = 0;
  need_init_ack = false;
}

abbrev pub new_endpoint : ℕ → ReliableConfig → Millis → ReliableEndpoint
new_endpoint session_id config now = record {
  session_id = session_id;
  next_send_id = 0;
  config = config;
  in_flight = [];
  outbound = [];
  ack = default_ack;
  last_recv_at = now;
  last_ping_at = now;
  opened = false;
}

unfoldable pub note_recv : Millis → ReliableEndpoint → ReliableEndpoint
note_recv now ep = record ep { last_recv_at = now }

-- `elapsed` and `duration_since` are 0 where the clock would have gone back, as `-` is.
unfoldable pub is_timed_out : Millis → ReliableEndpoint → Bool
is_timed_out now ep = ltb ep.config.idle_timeout (now - ep.last_recv_at)

unfoldable pub queue_payload : List ℕ → ReliableEndpoint → ReliableEndpoint
queue_payload payload ep = record ep { outbound = ep.outbound ++ (payload ∷ []) }

-- The loop of `queue_commands_packed`: what it pushes on `outbound`, from the payload being filled.
unfoldable pub pack : List ℕ → List (List ℕ) → List (List ℕ)
pack current [] = if is_empty current then [] else current ∷ []
pack current (cmd ∷ cmds) =
    let full =
      ltb max_packet_len (header_len + length current + length cmd) && not (is_empty current) in
    let left = if full then [] else current in
    let oversized = ltb max_packet_len (header_len + length cmd) in
    let later = pack (if oversized then left else left ++ cmd) cmds in
    (if full then current ∷ [] else []) ++ ((if oversized then cmd ∷ [] else []) ++ later)

unfoldable pub queue_commands_packed : List (List ℕ) → ReliableEndpoint → ReliableEndpoint
queue_commands_packed commands ep = record ep { outbound = ep.outbound ++ pack [] commands }

-- The loop of `on_ack_id`.
unfoldable pub pop_covered : ℕ → List InFlightEntry → List InFlightEntry
pop_covered ack_id [] = []
pop_covered ack_id (front ∷ rest) =
    if is_ack_covering ack_id front.packet_id then pop_covered ack_id rest else front ∷ rest

unfoldable pub on_ack_id : ℕ → ReliableEndpoint → ReliableEndpoint
on_ack_id ack_id ep = record ep { in_flight = pop_covered ack_id ep.in_flight }

-- `saturating_add(1)` on a `u16`.
abbrev pub saturating_inc : ℕ → ℕ
saturating_inc n = min (n + 1) 0xffff

-- The two branches that refuse a packet do the same; the source tells them apart by a comment.
unfoldable pub accept_reliable : ℕ → Bool → ReliableEndpoint → ReliableEndpoint × Bool
accept_reliable packet_id retransmit ep =
    if packet_id == ep.ack.expected_recv
    then (
      record ep {
        ack = record ep.ack {
          expected_recv = next_packet_id ep.ack.expected_recv;
          highest_recv = some packet_id;
          packets_since_ack = saturating_inc ep.ack.packets_since_ack;
        };
      },
      true,
    )
    else (if retransmit
          && is_ack_covering ((ep.ack.expected_recv + 2 ^ 16 - 1) % 2 ^ 16 % max_packet_id)
              packet_id
        then (ep, false)
        else (ep, false))

unfoldable pub should_send_ack : Millis → ReliableEndpoint → Bool
should_send_ack now ep = elim ep.ack.highest_recv [
  | none ↦ false
  | some _ ↦
      if leb ep.config.ack_coalesce_count ep.ack.packets_since_ack
      then true
      else elim ep.ack.last_ack_sent_at [
        | none ↦ ltb 0 ep.ack.packets_since_ack
        | some t ↦ ltb 0 ep.ack.packets_since_ack && leb ep.config.ack_coalesce_after (now - t)
      ]
]

-- What `build_ack_packet` leaves of the endpoint.
abbrev pub acked : Millis → ReliableEndpoint → ReliableEndpoint
acked now ep = record ep {
  ack = record ep.ack { packets_since_ack = 0; last_ack_sent_at = some now };
}

abbrev pub ack_packet : ReliableEndpoint → ℕ → List ℕ
ack_packet ep ack_id =
    encode_packet (record (new ack_reply ep.session_id header_len) { ack_id = ack_id }) []

unfoldable pub build_ack_packet : Millis → ReliableEndpoint → ReliableEndpoint × Option (List ℕ)
build_ack_packet now ep = elim ep.ack.highest_recv [
  | none ↦ (ep, none)
  | some ack_id ↦ (acked now ep, some (ack_packet ep ack_id))
]

unfoldable pub build_retransmit_request : ReliableEndpoint → List ℕ
build_retransmit_request ep =
    encode_packet
      (record (new retransmit_request_flag ep.session_id header_len) {
        retransmit_request = ep.ack.expected_recv;
      })
      []
