-- ===== src/Protocol/Link/Wire.antt =====
-- Packets of a link on their way: what the receiver reads of a packet, of its copies that
-- poll_outbound sends again, and of an acknowledgement.
use atemproxy.Prelude.{
  ℕ, ◌<◌, ◌≡◌, refl, ap, sym, ◌∙◌, false, List, [], ◌∷◌, arith, append-nil, some, Option-cases,
  Bool-cases, inl, inr, ◌⊎◌,
}
use atemproxy.Protocol.Error.{Result, ok}
use atemproxy.Protocol.Packet.{
  PacketHeader, IsHeader, new, contains, ack_request, ack_reply, encode_packet, decode_packet,
  header_len,
}
use atemproxy.Protocol.Packet.RoundTrip.{carried, decode_packet-encode_packet}
use atemproxy.Protocol.Reliable.{
  ReliableEndpoint, Millis, ack_packet, acked, should_send_ack, build_ack_packet,
}
use atemproxy.Protocol.Outbound.{reliable_packet, mark_retransmit, ack_if_due}
use atemproxy.Protocol.Outbound.Retransmit.{decode_packet-mark_retransmit}

-- The bytes of a packet with an id and a payload.
pub record IsPacket (id : ℕ) (payload bytes : List ℕ) : Type 0 where
  pub header : PacketHeader
  pub fits : IsHeader header
  pub has_id : header.packet_id ≡ id
  pub asks : header.flags ≡ ack_request
  pub no_ack : header.ack_id ≡ 0
  pub written : bytes ≡ encode_packet header payload

-- What a packet is read as, if it is.
abbrev pub Reads : ℕ → List ℕ → List ℕ → Type 0
Reads id payload bytes =
    (h : PacketHeader) (p : List ℕ)
    → decode_packet bytes ≡ ok (h, p)
    → (h.packet_id ≡ id) × (p ≡ carried payload)

pair-injective :
    {h k : PacketHeader} {p q : List ℕ}
    → ◌≡◌ {A = Result (PacketHeader × List ℕ)} (ok (h, p)) (ok (k, q))
    → (h ≡ k) × (p ≡ q)
pair-injective e = (cc, cc)

pub IsPacket-Reads :
    (id : ℕ) (payload bytes : List ℕ) → IsPacket id payload bytes → Reads id payload bytes
IsPacket-Reads id payload bytes v h p e =
    let (same, body) = pair-injective (
      sym e
      ∙ ap decode_packet (v.written ∙ sym (append-nil _))
      ∙ decode_packet-encode_packet v.header payload [] v.fits) in
    (ap (λ k. k.packet_id) same ∙ v.has_id, body)

pub mark_retransmit-Reads :
    (id : ℕ) (payload bytes : List ℕ)
    → IsPacket id payload bytes
    → Reads id payload (mark_retransmit bytes)
mark_retransmit-Reads id payload bytes v h p e =
    let (same, body) = pair-injective (
      sym e
      ∙ ap (λ b. decode_packet (mark_retransmit b)) v.written
      ∙ decode_packet-mark_retransmit v.header payload v.fits) in
    (ap (λ k. k.packet_id) same ∙ v.has_id, body)

pub reliable_packet-IsPacket :
    (ep : ReliableEndpoint) (payload : List ℕ)
    → ep.session_id < 65536
    → ep.next_send_id < 65536
    → IsPacket ep.next_send_id payload (reliable_packet ep payload)
unfolding encode_packet
reliable_packet-IsPacket ep payload s n = record {
  header = record (new ack_request ep.session_id 0) { packet_id = ep.next_send_id };
  fits = omega arith;
  has_id = refl;
  asks = refl;
  no_ack = refl;
  written = refl;
}

-- An acknowledgement carries its id, and is not to be delivered.
unfoldable pub IsAck : ℕ → List ℕ → Type 0
IsAck id bytes =
    (h : PacketHeader) (p : List ℕ)
    → decode_packet bytes ≡ ok (h, p)
    → (h.ack_id ≡ id) × (contains h.flags ack_request ≡ false)

pub ack_packet-IsAck :
    (ep : ReliableEndpoint) (id : ℕ)
    → ep.session_id < 65536
    → id < 65536
    → IsAck id (ack_packet ep id)
unfolding IsAck contains
ack_packet-IsAck ep id s i h p e =
    let header = record (new ack_reply ep.session_id header_len) { ack_id = id } in
    let (same, body) = pair-injective (
      sym e
      ∙ ap decode_packet (sym (append-nil _))
      ∙ decode_packet-encode_packet header [] [] (omega arith)) in
    (ap (λ k. k.ack_id) same, rw same refl)

-- The two outcomes of `ack_if_due`.
pub ack_if_due-cases :
    (clock : Millis) (ep : ReliableEndpoint)
    → (ack_if_due clock ep ≡ (ep, []))
      ⊎ ((id : ℕ) × (ep.ack.highest_recv ≡ some id)
          × (ack_if_due clock ep ≡ (acked clock ep, ack_packet ep id ∷ [])))
unfolding ack_if_due should_send_ack build_ack_packet
ack_if_due-cases clock ep = elim (Option-cases ep.ack.highest_recv) [
  | inl e ↦ inl (ground arith)
  | inr (id, e) ↦ elim (Bool-cases (should_send_ack clock ep)) [
    | inl due ↦ inr (id, e, rw (due, e) refl)
    | inr not_due ↦ inl (rw not_due refl)
  ]
]
