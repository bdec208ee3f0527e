-- ===== src/Protocol/Outbound/Tests.antt =====
-- The theorems on `poll_outbound` and its parts at concrete inputs.
use atemproxy.Prelude.{ℕ, ◌≡◌, suc, refl, [], ◌∷◌, arith, drop}
use atemproxy.Protocol.Error.{ok}
use atemproxy.Protocol.Packet.{
  PacketHeader, IsHeader, new, ack_request, encode_packet, decode_packet,
}
use atemproxy.Protocol.Packet.RoundTrip.{sealed_header, carried}
use atemproxy.Protocol.Reliable.{
  ReliableEndpoint, InFlightEntry, new_endpoint, default_config, on_ack_id, next_packet_id,
}
use atemproxy.Protocol.Reliable.Ids.{advance, ids_from}
use atemproxy.Protocol.Outbound.{poll_outbound, mark_retransmit}
use atemproxy.Protocol.Outbound.Window.{IsWindow, poll_outbound-IsWindow}
use atemproxy.Protocol.Outbound.Acks.{on_ack_id-window}
use atemproxy.Protocol.Outbound.Retransmit.{sent_again, decode_packet-mark_retransmit}

abbrev sent : ℕ → InFlightEntry
sent id = record { packet_id = id; bytes = []; sent_at = 0 }

-- Two packets in flight, at the end of the id space, and two payloads that wait.
abbrev busy : ReliableEndpoint
busy = record (new_endpoint 0x8001 default_config 0) {
  next_send_id = 1;
  in_flight = sent 32767 ∷ sent 0 ∷ [];
  outbound = (1 ∷ []) ∷ (2 ∷ []) ∷ [];
}

busy-IsWindow : IsWindow busy
unfolding ids_from advance next_packet_id
busy-IsWindow = record {
  start = 32767;
  start_fits = omega arith;
  in_row = refl;
  next_id = refl;
  bounded = omega arith;
}

poll_outbound-IsWindow_example : IsWindow ((poll_outbound 40 40 busy).0)
poll_outbound-IsWindow_example = poll_outbound-IsWindow 40 40 busy (omega arith) busy-IsWindow

on_ack_id-window_example :
    ((on_ack_id (advance 0 (busy-IsWindow.start)) busy).in_flight ≡ drop (suc 0) busy.in_flight)
    × IsWindow (on_ack_id (advance 0 (busy-IsWindow.start)) busy)
on_ack_id-window_example = on_ack_id-window busy busy-IsWindow 0 (omega arith) (omega arith)

abbrev header : PacketHeader
header = new ack_request 0x8001 0

header-IsHeader : IsHeader header
header-IsHeader = omega arith

decode_packet-mark_retransmit_example :
    decode_packet (mark_retransmit (encode_packet header (5 ∷ [])))
    ≡ ok (sealed_header (sent_again header) (5 ∷ []), carried (5 ∷ []))
decode_packet-mark_retransmit_example =
    decode_packet-mark_retransmit header (5 ∷ []) header-IsHeader
