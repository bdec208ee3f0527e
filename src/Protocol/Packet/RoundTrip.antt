-- ===== src/Protocol/Packet/RoundTrip.antt =====
-- packet.rs: what `decode` and `decode_packet` read of bytes that `encode` and `encode_packet` wrote.
use atemproxy.Prelude.{
  ℕ, ◌+◌, ◌-◌, ◌*◌, ◌/◌, ◌%◌, ◌^◌, ◌≤◌, ◌<◌, bit_and, min, ◌≡◌, refl, ap, ◌∙◌, List, ◌∷◌, ◌++◌,
  arith, length, take, drop, length-append, length-take, take_of_length-le, take-append,
  drop-append, append_assoc,
}
use native.Mathlib.Decide.{dec_le}
use atemproxy.Prelude.Bits.{bit_or-shift, mask_5, mask_11}
use atemproxy.Prelude.Bytes.{from_be_bytes}
use atemproxy.Protocol.Error.{ok}
use atemproxy.Protocol.Packet.{
  PacketHeader, IsHeader, flags_len, encode, decode, decode_packet, encode_packet,
}

pub flags_len_lem : (f l : ℕ) → f < 32 → flags_len f l ≡ f * 2048 + l % 2048
flags_len_lem f l h =
    let e : f * 2 ^ 11 % 2 ^ 16 ≡ f * 2 ^ 11 = omega arith in
    rw (e, mask_11 l) (bit_or-shift 11 f (l % 2048) (omega arith))

-- Reading a big-endian word back.
pub from-to_be_bytes : (w : ℕ) → w < 65536 → from_be_bytes (w % 65536 / 256) (w % 256) ≡ w
from-to_be_bytes w h = omega arith

header_path :
    (f l s a r u p : ℕ) (h : PacketHeader)
    → f ≡ h.flags
    → l ≡ h.length_field
    → s ≡ h.session_id
    → a ≡ h.ack_id
    → r ≡ h.retransmit_request
    → u ≡ h.unknown
    → p ≡ h.packet_id
    → (record {
      flags = f;
      length_field = l;
      session_id = s;
      ack_id = a;
      retransmit_request = r;
      unknown = u;
      packet_id = p;
    })
      ≡ h
header_path f l s a r u p h e₁ e₂ e₃ e₄ e₅ e₆ e₇ = λ i. record {
  flags = e₁ i;
  length_field = e₂ i;
  session_id = e₃ i;
  ack_id = e₄ i;
  retransmit_request = e₅ i;
  unknown = e₆ i;
  packet_id = e₇ i;
}

-- Twelve bytes and more are enough for a header.
pub decode-cons :
    (b₀ b₁ b₂ b₃ b₄ b₅ b₆ b₇ b₈ b₉ b₁₀ b₁₁ : ℕ) (rest : List ℕ)
    → decode (b₀ ∷ b₁ ∷ b₂ ∷ b₃ ∷ b₄ ∷ b₅ ∷ b₆ ∷ b₇ ∷ b₈ ∷ b₉ ∷ b₁₀ ∷ b₁₁ ∷ rest)
      ≡ ok (record {
        flags = bit_and ((b₀ * 256 + b₁) / 2048 % 256) 0x1f;
        length_field = bit_and (b₀ * 256 + b₁) 0x07ff;
        session_id = b₂ * 256 + b₃;
        ack_id = b₄ * 256 + b₅;
        retransmit_request = b₆ * 256 + b₇;
        unknown = b₈ * 256 + b₉;
        packet_id = b₁₀ * 256 + b₁₁;
      })
unfolding decode
decode-cons b₀ b₁ b₂ b₃ b₄ b₅ b₆ b₇ b₈ b₉ b₁₀ b₁₁ rest = ground arith

read_flags :
    (f l : ℕ)
    → f < 32
    → bit_and (from_be_bytes (flags_len f l % 65536 / 256) (flags_len f l % 256) / 2048 % 256) 0x1f
      ≡ f
read_flags f l h = rw (flags_len_lem f l h, mask_5) (omega arith)

read_length :
    (f l : ℕ)
    → f < 32
    → l < 2048
    → bit_and (from_be_bytes (flags_len f l % 65536 / 256) (flags_len f l % 256)) 0x07ff ≡ l
read_length f l h k = rw (flags_len_lem f l h, mask_11) (omega arith)

-- A header that fits its fields is read back, whatever follows it.
pub decode-encode :
    (h : PacketHeader) (rest : List ℕ) → IsHeader h → decode (encode h ++ rest) ≡ ok h
unfolding encode
decode-encode h rest v =
    decode-cons _ _ _ _ _ _ _ _ _ _ _ _ rest
    ∙ ap ok (
        header_path _ _ _ _ _ _ _ h (read_flags h.flags h.length_field v.flags_fit)
          (read_length h.flags h.length_field v.flags_fit v.length_fits)
          (from-to_be_bytes h.session_id v.session_fits) (from-to_be_bytes h.ack_id v.ack_fits)
          (from-to_be_bytes h.retransmit_request v.retransmit_fits)
          (from-to_be_bytes h.unknown v.unknown_fits) (from-to_be_bytes h.packet_id v.packet_fits))

pub length-encode : (h : PacketHeader) → length (encode h) ≡ 12
unfolding encode
length-encode h = refl

-- The payload as it travels: what does not fit the 11-bit length is cut.
pub carried : List ℕ → List ℕ
carried payload = take 2035 payload

-- The header as it travels: the given one with the length of the packet.
abbrev pub sealed_header : PacketHeader → List ℕ → PacketHeader
sealed_header h payload = record h { length_field = 12 + length (carried payload) }

pub carried_of_length-le : (payload : List ℕ) → length payload ≤ 2035 → carried payload ≡ payload
unfolding carried
carried_of_length-le payload h = take_of_length-le 2035 payload h

pub length-carried : (payload : List ℕ) → length (carried payload) ≡ min 2035 (length payload)
unfolding carried
length-carried payload = length-take 2035 payload

take-carried :
    (payload : List ℕ) → take (min (12 + length payload) 2047 - 12) payload ≡ carried payload
take-carried payload = elim (dec_le (length payload) 2035) [
  | yes p ↦
      rw (carried_of_length-le payload p)
        (take_of_length-le (min (12 + length payload) 2047 - 12) payload (omega arith))
  | no p ↦
      let e : min (12 + length payload) 2047 - 12 ≡ 2035 = omega arith in
      unfold carried in ap (λ n. take n payload) e
]

pub encode_packet_lem :
    (h : PacketHeader) (payload : List ℕ)
    → encode_packet h payload ≡ encode (sealed_header h payload) ++ carried payload
unfolding encode_packet
encode_packet_lem h payload =
    let e : min (12 + length payload) 2047 % 2 ^ 16 ≡ 12 + length (carried payload) =
      omega (arith, length-carried payload) in
    rw (take-carried payload)
      (ap (λ n. encode (record h { length_field = n }) ++ carried payload) e)

pub length-encode_packet :
    (h : PacketHeader) (payload : List ℕ)
    → length (encode_packet h payload) ≡ 12 + min 2035 (length payload)
length-encode_packet h payload =
    rw (encode_packet_lem h payload, length-append, length-encode, length-carried)

pub sealed_header-IsHeader :
    (h : PacketHeader) (payload : List ℕ) → IsHeader h → IsHeader (sealed_header h payload)
sealed_header-IsHeader h payload v = record {
  flags_fit = v.flags_fit;
  length_fits = omega (arith, length-carried payload);
  session_fits = v.session_fits;
  ack_fits = v.ack_fits;
  retransmit_fits = v.retransmit_fits;
  unknown_fits = v.unknown_fits;
  packet_fits = v.packet_fits;
}

-- A buffer that begins with a whole packet.
pub decode_packet_of_decode :
    (h : PacketHeader) (head payload rest : List ℕ)
    → decode ((head ++ payload) ++ rest) ≡ ok h
    → length head ≡ 12
    → h.length_field ≡ 12 + length payload
    → decode_packet ((head ++ payload) ++ rest) ≡ ok (h, payload)
unfolding decode_packet
decode_packet_of_decode h head payload rest d l e =
    let body : drop 12 (take h.length_field ((head ++ payload) ++ rest)) ≡ payload =
      rw
        (take-append h.length_field (head ++ payload) rest
          (omega (arith, length-append head payload)))
        (drop-append 12 head payload l) in
    rw d (ground (arith, body, length-append head payload, length-append (head ++ payload) rest))

-- Of a header whose fields fit, `decode_packet` reads back what `encode_packet` wrote, whatever
-- follows the packet: the header with its length set, and the payload, whole up to 2035 bytes and
-- else its first 2035 bytes.
pub decode_packet-encode_packet :
    (h : PacketHeader) (payload rest : List ℕ)
    → IsHeader h
    → decode_packet (encode_packet h payload ++ rest)
      ≡ ok (sealed_header h payload, carried payload)
decode_packet-encode_packet h payload rest v = rw (encode_packet_lem h payload) (
    decode_packet_of_decode (sealed_header h payload) (encode (sealed_header h payload))
      (carried payload) rest
      (rw append_assoc
        (decode-encode _ (carried payload ++ rest) (sealed_header-IsHeader h payload v)))
      (length-encode _) refl)
