-- ===== src/Protocol/Packet/Decoding.antt =====
-- packet.rs: `decode` and `decode_packet` on any bytes.
use atemproxy.Prelude.{
  All-take, All-drop, ℕ, ◌+◌, ◌*◌, ◌/◌, ◌%◌, ◌≤◌, ◌<◌, bit_and, ◌≡◌, subst, ◌∙◌, sym, ◌↔◌, List, [],
  ◌∷◌, arith, length, take, drop, length-take, length-drop, take-append-drop, take-take, ap,
}
use atemproxy.Prelude.Bits.{mask_5, mask_11}
use atemproxy.Prelude.Bytes.{AreBytes, IsByte, byte_at}
use atemproxy.Protocol.Error.{ok, ok-injective}
use atemproxy.Protocol.Packet.{
  PacketHeader, IsHeader, flags_len, encode, decode, decode_packet, encode_packet,
}
use atemproxy.Protocol.Packet.RoundTrip.{
  flags_len_lem, decode-cons, encode_packet_lem, sealed_header, carried, carried_of_length-le,
}

-- The first word of a header is read and written back.
flags_len-masks :
    (w : ℕ) → w < 65536 → flags_len (bit_and (w / 2048 % 256) 0x1f) (bit_and w 0x07ff) ≡ w
flags_len-masks w h =
    rw (mask_11 w, mask_5, flags_len_lem (w / 2048 % 256 % 32) (w % 2048) (omega arith))
      (omega arith)

high : (hi lo : ℕ) → hi < 256 → lo < 256 → (hi * 256 + lo) % 65536 / 256 ≡ hi
high hi lo h k = omega arith

low : (hi lo : ℕ) → lo < 256 → (hi * 256 + lo) % 256 ≡ lo
low hi lo k = omega arith

mask_5-lt : (a : ℕ) → bit_and a 0x1f < 32
mask_5-lt a = omega (arith, mask_5 a)

mask_11-lt : (a : ℕ) → bit_and a 0x07ff < 2048
mask_11-lt a = omega (arith, mask_11 a)

-- The header that twelve bytes spell.
abbrev spelled : List ℕ → PacketHeader
spelled b = record {
  flags = bit_and ((byte_at b 0 * 256 + byte_at b 1) / 2048 % 256) 0x1f;
  length_field = bit_and (byte_at b 0 * 256 + byte_at b 1) 0x07ff;
  session_id = byte_at b 2 * 256 + byte_at b 3;
  ack_id = byte_at b 4 * 256 + byte_at b 5;
  retransmit_request = byte_at b 6 * 256 + byte_at b 7;
  unknown = byte_at b 8 * 256 + byte_at b 9;
  packet_id = byte_at b 10 * 256 + byte_at b 11;
}

module _ (b₀ b₁ b₂ b₃ b₄ b₅ b₆ b₇ b₈ b₉ b₁₀ b₁₁ : ℕ) (rest : List ℕ)
    (a : AreBytes (b₀ ∷ b₁ ∷ b₂ ∷ b₃ ∷ b₄ ∷ b₅ ∷ b₆ ∷ b₇ ∷ b₈ ∷ b₉ ∷ b₁₀ ∷ b₁₁ ∷ rest)) where
  abbrev whole : List ℕ
  whole = b₀ ∷ b₁ ∷ b₂ ∷ b₃ ∷ b₄ ∷ b₅ ∷ b₆ ∷ b₇ ∷ b₈ ∷ b₉ ∷ b₁₀ ∷ b₁₁ ∷ rest

  spelled-IsHeader : IsHeader (spelled whole)
  spelled-IsHeader = record {
    flags_fit = mask_5-lt ((b₀ * 256 + b₁) / 2048 % 256);
    length_fits = mask_11-lt (b₀ * 256 + b₁);
    session_fits = omega arith;
    ack_fits = omega arith;
    retransmit_fits = omega arith;
    unknown_fits = omega arith;
    packet_fits = omega arith;
  }

  encode-spelled : encode (spelled whole) ≡ take 12 whole
  unfolding encode
  encode-spelled =
      let word : flags_len (bit_and ((b₀ * 256 + b₁) / 2048 % 256) 0x1f)
            (bit_and (b₀ * 256 + b₁) 0x07ff)
          ≡ b₀ * 256 + b₁ =
        flags_len-masks (b₀ * 256 + b₁) (omega arith) in
      rw word (λ i.
        high b₀ b₁ a.0 a.1.0 i
        ∷ low b₀ b₁ a.1.0 i
        ∷ high b₂ b₃ a.1.1.0 a.1.1.1.0 i
        ∷ low b₂ b₃ a.1.1.1.0 i
        ∷ high b₄ b₅ a.1.1.1.1.0 a.1.1.1.1.1.0 i
        ∷ low b₄ b₅ a.1.1.1.1.1.0 i
        ∷ high b₆ b₇ a.1.1.1.1.1.1.0 a.1.1.1.1.1.1.1.0 i
        ∷ low b₆ b₇ a.1.1.1.1.1.1.1.0 i
        ∷ high b₈ b₉ a.1.1.1.1.1.1.1.1.0 a.1.1.1.1.1.1.1.1.1.0 i
        ∷ low b₈ b₉ a.1.1.1.1.1.1.1.1.1.0 i
        ∷ high b₁₀ b₁₁ a.1.1.1.1.1.1.1.1.1.1.0 a.1.1.1.1.1.1.1.1.1.1.1.0 i
        ∷ low b₁₀ b₁₁ a.1.1.1.1.1.1.1.1.1.1.1.0 i
        ∷ [])

  spelled_back : (h : PacketHeader) → decode whole ≡ ok h → IsHeader h × (encode h ≡ take 12 whole)
  spelled_back h e =
      subst (λ (g : PacketHeader). IsHeader g × (encode g ≡ take 12 whole))
        (ok-injective (sym (decode-cons b₀ b₁ b₂ b₃ b₄ b₅ b₆ b₇ b₈ b₉ b₁₀ b₁₁ rest) ∙ e))
        (spelled-IsHeader, encode-spelled)

-- What `decode` reads of bytes fits the fields, and `encode` writes the twelve bytes back.
pub encode-decode :
    (buf : List ℕ) (h : PacketHeader)
    → AreBytes buf
    → decode buf ≡ ok h
    → IsHeader h × (encode h ≡ take 12 buf)
unfolding decode
encode-decode (b₀ ∷ b₁ ∷ b₂ ∷ b₃ ∷ b₄ ∷ b₅ ∷ b₆ ∷ b₇ ∷ b₈ ∷ b₉ ∷ b₁₀ ∷ b₁₁ ∷ rest) h a e =
    spelled_back b₀ b₁ b₂ b₃ b₄ b₅ b₆ b₇ b₈ b₉ b₁₀ b₁₁ rest a h e
encode-decode _ h a e = absurd (ground arith)

-- `decode_packet` accepts a buffer just when it holds the packet that its header announces, and
-- the payload is what lies between the header and that length.
pub decode_packet-eq-ok :
    (buf : List ℕ) (h : PacketHeader) (p : List ℕ)
    → (decode_packet buf ≡ ok (h, p)) ↔ (
        (decode buf ≡ ok h)
        × (12 ≤ h.length_field)
        × (h.length_field ≤ length buf)
        × (p ≡ drop 12 (take h.length_field buf)))
unfolding decode_packet
decode_packet-eq-ok buf h p = ground arith

-- A packet that was accepted from bytes has a header that fits, and encodes to those very bytes.
pub encode_packet-decode_packet :
    (buf : List ℕ) (h : PacketHeader) (p : List ℕ)
    → AreBytes buf
    → decode_packet buf ≡ ok (h, p)
    → IsHeader h × (length p + 12 ≡ h.length_field) × (encode_packet h p ≡ take h.length_field buf)
encode_packet-decode_packet buf h p a e =
    let (d, low, high, body) = (decode_packet-eq-ok buf h p).0 e in
    let (v, wire) = encode-decode buf h a d in
    let n : length p + 12 ≡ h.length_field = omega (
      arith,
      ap length body,
      length-drop 12 (take h.length_field buf),
      length-take h.length_field buf,
    ) in
    (v, n, reencode v wire n body low)
  where
    len_path :
        carried p ≡ p → length p + 12 ≡ h.length_field → 12 + length (carried p) ≡ h.length_field
    len_path whole n = rw whole (omega arith)

    reencode :
        IsHeader h
        → encode h ≡ take 12 buf
        → length p + 12 ≡ h.length_field
        → p ≡ drop 12 (take h.length_field buf)
        → 12 ≤ h.length_field
        → encode_packet h p ≡ take h.length_field buf
    reencode v wire n body low =
        let whole : carried p ≡ p = carried_of_length-le p (omega arith) in
        let same : sealed_header h p ≡ h = λ i. record h { length_field = len_path whole n i } in
        rw (encode_packet_lem h p, same, whole, wire, body)
          (rw (take-take 12 h.length_field buf low) at
            (take-append-drop 12 (take h.length_field buf)))

pub decode_packet-AreBytes :
    (buf : List ℕ) (h : PacketHeader) (p : List ℕ)
    → decode_packet buf ≡ ok (h, p)
    → AreBytes buf
    → AreBytes p
decode_packet-AreBytes buf h p e a =
    let (_, _, _, body) = (decode_packet-eq-ok buf h p).0 e in
    subst AreBytes (sym body)
      (All-drop IsByte 12 (take h.length_field buf) (All-take IsByte h.length_field buf a))
