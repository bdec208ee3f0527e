-- ===== src/Protocol/Session.antt =====
-- crates/atem-protocol/src/session.rs: the packets of the handshake.
pub mod Handshakes
mod Tests
use atemproxy.Prelude.{ℕ, Bool, Option, none, some, List, [], ◌∷◌, bit_and, bit_or}
use atemproxy.Protocol.Packet.{
  PacketFlags, PacketHeader, new, contains, handshake, ack_reply, header_len, encode_packet,
}

abbrev pub handshake_client_status : ℕ
handshake_client_status = 0x01

abbrev pub handshake_ok_status : ℕ
handshake_ok_status = 0x02

abbrev pub init_ack_remote_seq : ℕ
init_ack_remote_seq = 0x61

unfoldable pub server_session_id : ℕ → ℕ
server_session_id index = bit_or 0x8000 (bit_and index 0x7fff)

unfoldable pub is_handshake_packet : PacketFlags → Bool
is_handshake_packet flags = contains flags handshake

-- `payload.first().copied()`
unfoldable pub parse_handshake_status : List ℕ → Option ℕ
parse_handshake_status [] = none
parse_handshake_status (b ∷ bs) = some b

unfoldable pub build_client_handshake : ℕ → List ℕ
build_client_handshake session_id =
    encode_packet (record (new handshake session_id 20) { unknown = 0x0068 })
      (handshake_client_status ∷ 0x00 ∷ 0x00 ∷ 0x08 ∷ 0x00 ∷ 0x00 ∷ 0x00 ∷ 0x00 ∷ [])

unfoldable pub build_server_handshake_reply : ℕ → List ℕ
build_server_handshake_reply session_id =
    encode_packet (new handshake session_id 20)
      (handshake_ok_status ∷ 0x00 ∷ 0x00 ∷ 0x00 ∷ 0x00 ∷ 0x00 ∷ 0x00 ∷ 0x00 ∷ [])

unfoldable pub build_ack_reply : ℕ → ℕ → ℕ → List ℕ
build_ack_reply session_id ack_id packet_id =
    encode_packet
      (record (new ack_reply session_id header_len) { ack_id = ack_id; packet_id = packet_id }) []

unfoldable pub build_init_complete_ack : ℕ → ℕ → List ℕ
build_init_complete_ack session_id ack_id =
    encode_packet
      (record (new ack_reply session_id header_len) {
        ack_id = ack_id;
        unknown = init_ack_remote_seq;
      })
      []
