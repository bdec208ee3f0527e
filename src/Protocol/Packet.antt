-- ===== src/Protocol/Packet.antt =====
-- crates/atem-protocol/src/packet.rs: the 12-byte header and the packet around a payload.
-- A `u8` or a `u16` is a number; `encode` and `decode` write and read it big-endian.
pub mod RoundTrip
pub mod Decoding
mod Tests
use atemproxy.Prelude.{
  ℕ, ◌+◌, ◌-◌, ◌*◌, ◌/◌, ◌%◌, ◌^◌, ◌<◌, bit_and, bit_or, min, Bool, List, [], ◌∷◌, ◌++◌, ltb, ◌==◌,
  if◌then◌else◌, length, take, drop,
}
use atemproxy.Prelude.Bytes.{IsU16, to_be_bytes, from_be_bytes, byte_at}
use atemproxy.Protocol.Error.{Result, ok, err, too_short, length_mismatch, ◌>>=◌}

abbrev pub atem_udp_port : ℕ
atem_udp_port = 9910

abbrev pub header_len : ℕ
header_len = 12

abbrev pub max_packet_len : ℕ
max_packet_len = 1400

-- `bitflags! struct PacketFlags: u8`: the bits of the set.
abbrev pub PacketFlags : Type 0
PacketFlags = ℕ

abbrev pub ack_request : PacketFlags
ack_request = 0x01

abbrev pub handshake : PacketFlags
handshake = 0x02

abbrev pub is_retransmit : PacketFlags
is_retransmit = 0x04

abbrev pub retransmit_request_flag : PacketFlags
retransmit_request_flag = 0x08

abbrev pub ack_reply : PacketFlags
ack_reply = 0x10

-- `flags.contains(f)`
unfoldable pub contains : PacketFlags → PacketFlags → Bool
contains flags f = bit_and flags f == f

-- The union of the five flags is 0x1f.
abbrev pub from_bits_truncate : ℕ → PacketFlags
from_bits_truncate bits = bit_and bits 0x1f

pub record PacketHeader : Type 0 where
  pub flags : PacketFlags
  pub length_field : ℕ
  pub session_id : ℕ
  pub ack_id : ℕ
  pub retransmit_request : ℕ
  pub unknown : ℕ
  pub packet_id : ℕ

-- The widths of the fields on the wire.
pub record IsHeader (h : PacketHeader) : Type 0 where
  pub flags_fit : h.flags < 32
  pub length_fits : h.length_field < 2048
  pub session_fits : IsU16 h.session_id
  pub ack_fits : IsU16 h.ack_id
  pub retransmit_fits : IsU16 h.retransmit_request
  pub unknown_fits : IsU16 h.unknown
  pub packet_fits : IsU16 h.packet_id

abbrev pub new : PacketFlags → ℕ → ℕ → PacketHeader
new flags session_id length_field = record {
  flags = flags;
  length_field = length_field;
  session_id = session_id;
  ack_id = 0;
  retransmit_request = 0;
  unknown = 0;
  packet_id = 0;
}

-- `((flags as u16) << 11) | (length & 0x07FF)`
abbrev pub flags_len : PacketFlags → ℕ → ℕ
flags_len flags len = bit_or (flags * 2 ^ 11 % 2 ^ 16) (bit_and len 0x07ff)

unfoldable pub encode : PacketHeader → List ℕ
encode h =
    to_be_bytes (flags_len h.flags h.length_field)
    ++ to_be_bytes h.session_id
    ++ to_be_bytes h.ack_id
    ++ to_be_bytes h.retransmit_request
    ++ to_be_bytes h.unknown
    ++ to_be_bytes h.packet_id

unfoldable pub decode : List ℕ → Result PacketHeader
decode buf =
    if ltb (length buf) header_len
    then err (too_short (length buf))
    else (let fl = from_be_bytes (byte_at buf 0) (byte_at buf 1) in
        ok (record {
          flags = from_bits_truncate (fl / 2 ^ 11 % 256);
          length_field = bit_and fl 0x07ff;
          session_id = from_be_bytes (byte_at buf 2) (byte_at buf 3);
          ack_id = from_be_bytes (byte_at buf 4) (byte_at buf 5);
          retransmit_request = from_be_bytes (byte_at buf 6) (byte_at buf 7);
          unknown = from_be_bytes (byte_at buf 8) (byte_at buf 9);
          packet_id = from_be_bytes (byte_at buf 10) (byte_at buf 11);
        }))

unfoldable pub decode_packet : List ℕ → Result (PacketHeader × List ℕ)
decode_packet buf = do
  header ← decode buf
  let declared = header.length_field
  if ltb declared header_len
      then err (length_mismatch declared (length buf))
      else (if ltb (length buf) declared
          then err (length_mismatch declared (length buf))
          else ok (header, drop header_len (take declared buf)))

-- As built for release, where `debug_assert!` is nothing: a total above 0x07FF is cut to it.
unfoldable pub encode_packet : PacketHeader → List ℕ → List ℕ
encode_packet header payload =
    let total = min (header_len + length payload) 0x07ff in
    encode (record header { length_field = total % 2 ^ 16 }) ++ take (total - header_len) payload
