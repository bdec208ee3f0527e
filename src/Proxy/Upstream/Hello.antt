-- ===== src/Proxy/Upstream/Hello.antt =====
-- The HELLO that run_session of upstream.rs sends.
use atemproxy.Prelude.{ℕ, ◌≡◌, ◌<◌, bit_and, refl, true, List, arith}
use atemproxy.Prelude.Bits.{mask_15}
use atemproxy.Protocol.Error.{ok}
use atemproxy.Protocol.Packet.{PacketHeader, new, handshake, decode_packet, contains}
use atemproxy.Protocol.Session.{is_handshake_packet, build_client_handshake}
use atemproxy.Protocol.Session.Handshakes.{decode_packet-whole}
use atemproxy.Proxy.Upstream.{hello}

-- Whatever the random number, the switcher reads a handshake, under a session id below 0x8000.
hello-read :
    (random : ℕ)
    → (h : PacketHeader) × (payload : List ℕ) × (decode_packet (hello random) ≡ ok (h, payload))
      × (is_handshake_packet h.flags ≡ true)
      × (h.session_id < 0x8000)
unfolding hello build_client_handshake is_handshake_packet contains
hello-read random =
    let fits : bit_and random 0x7fff < 0x8000 = omega (arith, mask_15 random) in
    (
      record (new handshake (bit_and random 0x7fff) 20) { unknown = 0x0068; length_field = 20 },
      _,
      decode_packet-whole (record (new handshake (bit_and random 0x7fff) 20) { unknown = 0x0068 }) _
          (omega arith) refl (omega arith),
      refl,
      fits,
    )
