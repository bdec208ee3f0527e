-- ===== src/Protocol/Session/Handshakes.antt =====
-- session.rs: what the receiver of a handshake packet reads, and the ids of sessions.
use atemproxy.Prelude.{
  ℕ, ◌+◌, ◌≤◌, ◌<◌, ◌%◌, ◌≡◌, refl, ◌∙◌, true, some, List, [], arith, append-nil, length,
}
use atemproxy.Prelude.Bits.{mask_15, bit_or-shift}
use atemproxy.Prelude.Bytes.{IsU16}
use atemproxy.Protocol.Error.{ok}
use atemproxy.Protocol.Packet.{
  PacketHeader, IsHeader, new, handshake, ack_reply, decode_packet, encode_packet, contains,
}
use atemproxy.Protocol.Packet.RoundTrip.{carried, carried_of_length-le, decode_packet-encode_packet}
use atemproxy.Protocol.Session.{
  server_session_id, is_handshake_packet, parse_handshake_status, build_server_handshake_reply,
  build_init_complete_ack, handshake_ok_status,
}

-- A packet whose payload is short enough is read whole.
pub decode_packet-whole :
    (h : PacketHeader) (payload : List ℕ) {n : ℕ}
    → IsHeader h
    → length payload ≡ n
    → n ≤ 2035
    → decode_packet (encode_packet h payload) ≡ ok (record h { length_field = 12 + n }, payload)
decode_packet-whole h payload v e l =
    (rw append-nil at (decode_packet-encode_packet h payload [] v))
    ∙ (λ i. ok (record h { length_field = 12 + length (whole i) }, whole i))
    ∙ (λ i. ok (record h { length_field = 12 + e i }, payload))
  where
    whole : carried payload ≡ payload
    whole = carried_of_length-le payload (omega arith)

-- A HELLO that the proxy answers with is read as a handshake under the assigned session id, with
-- the status OK.
pub build_server_handshake_reply-read :
    (session_id : ℕ)
    → IsU16 session_id
    → (h : PacketHeader) × (payload : List ℕ) × (decode_packet
          (build_server_handshake_reply session_id)
        ≡ ok (h, payload))
      × (is_handshake_packet h.flags ≡ true)
      × (h.session_id ≡ session_id)
      × (parse_handshake_status payload ≡ some handshake_ok_status)
unfolding build_server_handshake_reply is_handshake_packet contains parse_handshake_status
build_server_handshake_reply-read session_id s = (
  record (new handshake session_id 20) { length_field = 20 },
  _,
  decode_packet-whole (new handshake session_id 20) _ (omega arith) refl (omega arith),
  refl,
  refl,
  refl,
)

-- The acknowledgement after the initial dump carries its id and the mark 0x61, and no payload.
pub build_init_complete_ack-read :
    (session_id ack_id : ℕ)
    → IsU16 session_id
    → IsU16 ack_id
    → decode_packet (build_init_complete_ack session_id ack_id)
      ≡ ok (record (new ack_reply session_id 12) { ack_id = ack_id; unknown = 0x61 }, [])
unfolding build_init_complete_ack
build_init_complete_ack-read session_id ack_id s a =
    decode_packet-whole (record (new ack_reply session_id 12) { ack_id = ack_id; unknown = 0x61 })
      [] (omega arith) refl (omega arith)

-- Session ids have the high bit set and the index in the other fifteen.
pub server_session_id_lem : (index : ℕ) → server_session_id index ≡ 0x8000 + index % 0x8000
unfolding server_session_id
server_session_id_lem index = rw (mask_15 index) (bit_or-shift 15 1 (index % 0x8000) (omega arith))

-- Clients that are up to 32767 handshakes apart have different session ids.
pub server_session_id_distinct :
    (i d : ℕ) → 0 < d → d < 0x8000 → server_session_id (i + d) ≡ server_session_id i → ⊥
server_session_id_distinct i d h k e =
    absurd (omega (arith, server_session_id_lem i, server_session_id_lem (i + d)))
