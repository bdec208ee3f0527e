-- ===== src/Protocol/Outbound/Retransmit.antt =====
-- The part of ReliableEndpoint::poll_outbound (reliable.rs) that sends packets again.
use atemproxy.Prelude.{
  ℕ, ◌/◌, ◌%◌, ◌<◌, ◌≡◌, refl, bit_and, bit_or, List, ◌++◌, arith, ltb, true, append-nil, [],
}
use atemproxy.Prelude.Bits.{mask_11, all_below, all_below_sound}
use atemproxy.Prelude.Bytes.{from_be_bytes}
use atemproxy.Protocol.Error.{ok}
use atemproxy.Protocol.Packet.{
  PacketHeader, IsHeader, is_retransmit, encode, encode_packet, flags_len, decode_packet,
}
use atemproxy.Protocol.Packet.RoundTrip.{
  encode_packet_lem, flags_len_lem, sealed_header, carried, decode_packet-encode_packet,
}
use atemproxy.Protocol.Outbound.{mark_retransmit}

-- The header of a packet sent again.
abbrev pub sent_again : PacketHeader → PacketHeader
sent_again h = record h { flags = bit_or h.flags is_retransmit }

word_flags :
    (f l : ℕ)
    → f < 32
    → from_be_bytes (flags_len f l % 65536 / 256) (flags_len f l % 256) / 2048 % 256 ≡ f
word_flags f l h = rw (flags_len_lem f l h) (omega arith)

word_length :
    (f l : ℕ)
    → f < 32
    → bit_and (from_be_bytes (flags_len f l % 65536 / 256) (flags_len f l % 256)) 0x07ff
      ≡ bit_and l 0x07ff
word_length f l h = rw (flags_len_lem f l h, mask_11, mask_11 l) (omega arith)

mark-encode :
    (h : PacketHeader) (rest : List ℕ)
    → h.flags < 32
    → mark_retransmit (encode h ++ rest) ≡ encode (sent_again h) ++ rest
unfolding mark_retransmit encode
mark-encode h rest v =
    rw (word_flags h.flags h.length_field v, word_length h.flags h.length_field v) refl

-- Marking the bytes of a packet gives the bytes of the packet with the flag set.
pub mark_retransmit-encode_packet :
    (h : PacketHeader) (payload : List ℕ)
    → h.flags < 32
    → mark_retransmit (encode_packet h payload) ≡ encode_packet (sent_again h) payload
mark_retransmit-encode_packet h payload v =
    rw (encode_packet_lem h payload, encode_packet_lem (sent_again h) payload)
      (mark-encode (sealed_header h payload) (carried payload) v)

flag_table : all_below 32 (λ f. ltb (bit_or f is_retransmit) 32) ≡ true
unfolding all_below
flag_table = refl

sent_again-IsHeader : (h : PacketHeader) → IsHeader h → IsHeader (sent_again h)
sent_again-IsHeader h v = record {
  flags_fit = flags_lt (all_below_sound 32 _ h.flags flag_table v.flags_fit);
  length_fits = v.length_fits;
  session_fits = v.session_fits;
  ack_fits = v.ack_fits;
  retransmit_fits = v.retransmit_fits;
  unknown_fits = v.unknown_fits;
  packet_fits = v.packet_fits;
}
  where
    flags_lt : ltb (bit_or h.flags is_retransmit) 32 ≡ true → bit_or h.flags is_retransmit < 32
    flags_lt e = ground arith

-- A receiver reads a packet that is sent again as the packet with the retransmit flag set: the
-- other fields of the header and the payload are the same.
pub decode_packet-mark_retransmit :
    (h : PacketHeader) (payload : List ℕ)
    → IsHeader h
    → decode_packet (mark_retransmit (encode_packet h payload))
      ≡ ok (sealed_header (sent_again h) payload, carried payload)
decode_packet-mark_retransmit h payload v =
    rw (mark_retransmit-encode_packet h payload v.flags_fit) (
      rw append-nil at
        (decode_packet-encode_packet (sent_again h) payload [] (sent_again-IsHeader h v)))
