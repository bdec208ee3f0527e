-- ===== src/Protocol/Packet/Tests.antt =====
-- Runs of the packet functions, and the theorems at concrete inputs.
use atemproxy.Prelude.{ℕ, ◌+◌, ◌≡◌, refl, List, [], ◌∷◌, ◌++◌, arith, length, take}
use atemproxy.Protocol.Error.{ok}
use atemproxy.Protocol.Packet.{
  PacketHeader, IsHeader, new, handshake, encode, decode, decode_packet, encode_packet,
}
use atemproxy.Protocol.Packet.RoundTrip.{sealed_header, carried, decode_packet-encode_packet}
use atemproxy.Protocol.Packet.Decoding.{encode_packet-decode_packet}

abbrev hello : PacketHeader
hello = new handshake 0x1234 0

abbrev hello_bytes : List ℕ
hello_bytes = 0x10 ∷ 16 ∷ 0x12 ∷ 0x34 ∷ 0 ∷ 0 ∷ 0 ∷ 0 ∷ 0 ∷ 0 ∷ 0 ∷ 0 ∷ 1 ∷ 2 ∷ 3 ∷ 4 ∷ []

-- The repository's test `encode_packet_sets_length`.
encode_packet_run : encode_packet hello (1 ∷ 2 ∷ 3 ∷ 4 ∷ []) ≡ hello_bytes
unfolding encode_packet encode
encode_packet_run = refl

decode_packet_run :
    decode_packet hello_bytes ≡ ok (record hello { length_field = 16 }, 1 ∷ 2 ∷ 3 ∷ 4 ∷ [])
unfolding decode_packet decode
decode_packet_run = refl

hello-IsHeader : IsHeader hello
hello-IsHeader = omega arith

decode_packet-encode_packet_example :
    decode_packet (encode_packet hello (1 ∷ 2 ∷ []) ++ 9 ∷ [])
    ≡ ok (sealed_header hello (1 ∷ 2 ∷ []), carried (1 ∷ 2 ∷ []))
decode_packet-encode_packet_example =
    decode_packet-encode_packet hello (1 ∷ 2 ∷ []) (9 ∷ []) hello-IsHeader

encode_packet-decode_packet_example :
    IsHeader (record hello { length_field = 16 })
    × (length {A = ℕ} (1 ∷ 2 ∷ 3 ∷ 4 ∷ []) + 12 ≡ 16)
    × (encode_packet (record hello { length_field = 16 }) (1 ∷ 2 ∷ 3 ∷ 4 ∷ [])
        ≡ take 16 hello_bytes)
encode_packet-decode_packet_example =
    encode_packet-decode_packet hello_bytes (record hello { length_field = 16 })
      (1 ∷ 2 ∷ 3 ∷ 4 ∷ []) (omega arith) decode_packet_run
