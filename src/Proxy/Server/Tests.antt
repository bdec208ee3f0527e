-- ===== src/Proxy/Server/Tests.antt =====
-- The theorems on the clients' sessions at concrete inputs.
use atemproxy.Prelude.{◌≡◌, refl, true, false, [], ◌∷◌, map, All}
use atemproxy.Protocol.Error.{ok}
use atemproxy.Protocol.Packet.{decode_packet, decode, contains, encode_packet, encode}
use atemproxy.Protocol.Session.{build_client_handshake, is_handshake_packet}
use atemproxy.Proxy.Net.{SocketAddr, get}
use atemproxy.Proxy.Config.{deny, default_media}
use atemproxy.Proxy.Cache.{empty}
use atemproxy.Proxy.Filter.{FilterPolicy, new_filter}
use atemproxy.Proxy.Server.{
  ClientSession, Server, new_session, on_hello, handle_datagram, on_tick, idle_limit,
}
use atemproxy.Proxy.Server.Datagram.{IsFor, handle_datagram-isolated}
use atemproxy.Proxy.Server.Timeout.{IsReleased, awake, silent, on_tick-silent}

abbrev policy : FilterPolicy
policy = record { lock_mode = deny; media = default_media }

abbrev listening : ClientSession
listening = record (new_session 0x8001 0) { opened = true; dump_sent = true; audio = true }

abbrev two_clients : Server
two_clients = record {
  sessions = (7, listening) ∷ (8, new_session 0x8002 4000) ∷ [];
  next_sid = 3;
  filter = new_filter;
}

-- A HELLO while the switcher is not connected.
hello_refused :
    handle_datagram policy false empty 9 (build_client_handshake 0x1234) 7 two_clients
    ≡ ok (two_clients, [])
unfolding handle_datagram build_client_handshake encode_packet encode decode_packet decode
    is_handshake_packet contains on_hello
hello_refused = refl

handle_datagram-isolated_example :
    ((a : SocketAddr) → ¬ (a ≡ 7) → get a two_clients.sessions ≡ get a two_clients.sessions)
    × All (IsFor 7) []
handle_datagram-isolated_example =
    handle_datagram-isolated policy false empty 9 (build_client_handshake 0x1234) 7 two_clients
      two_clients [] hello_refused

on_tick-silent_example :
    (map (λ e. e.0) ((on_tick 3000 5000 5000 two_clients).0.sessions)
      ≡ awake (idle_limit 3000) 5000 two_clients.sessions)
    × All
        (IsReleased ((on_tick 3000 5000 5000 two_clients).0.filter))
        (silent (idle_limit 3000) 5000 two_clients.sessions)
on_tick-silent_example = on_tick-silent 3000 5000 5000 two_clients
