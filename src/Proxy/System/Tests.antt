-- ===== src/Proxy/System/Tests.antt =====
-- The proxy of proxy.rs in particular states.
use atemproxy.Prelude.{ℕ, ◌≡◌, ◌≢◌, refl, true, sym, subst, some, List, [], ◌∷◌, ◌++◌, arith}
use atemproxy.Protocol.Error.{ok}
use atemproxy.Protocol.Packet.{
  new, ack_request, ack_reply, encode_packet, encode, decode_packet, decode, contains,
}
use atemproxy.Protocol.Command.{
  name_eq, command_name, synthetic_init_complete, serialize_command, parse_commands, parse_loop,
  parse_round,
}
use atemproxy.Protocol.Session.{
  build_client_handshake, build_server_handshake_reply, server_session_id, is_handshake_packet,
}
use atemproxy.Protocol.Reliable.{
  ReliableEndpoint, queue_commands_packed, pack, new_endpoint, default_config, next_packet_id,
  note_recv, on_ack_id, pop_covered, accept_reliable,
}
use atemproxy.Proxy.Net.{put, get}
use atemproxy.Proxy.Config
use atemproxy.Proxy.Config.{Config}
use atemproxy.Proxy.Upstream.{
  UpstreamEvent, state_payload, chunk_commands, chunk_command, publish_state, publish_audio,
  publish_transfer, on_init_complete, handle_commands, handle_upstream_payload, on_reliable,
  on_packet, on_datagram, begin_session,
}
use atemproxy.Proxy.Server
use atemproxy.Prelude.Utf8
use atemproxy.Protocol.Classify
use atemproxy.Protocol.Command
use atemproxy.Proxy.Locks
use atemproxy.Proxy.Cache
use atemproxy.Proxy.Server.{ClientSession, Server, send_to, new_session, on_hello, handle_datagram}
use atemproxy.Proxy.System.{
  System, initial, switched, served, client_sent, on_client, Run, session_began, switcher_sent,
  nothing, then_,
}
use atemproxy.Prelude.Bytes.{AreBytes}
use atemproxy.Proxy.Cache.{empty, dump}
use atemproxy.Proxy.Cache.Views.{SameView, ingest_all}
use atemproxy.Proxy.Upstream.Hearing.{states, Unbroken}
use atemproxy.Proxy.System.EveryClient.{Heard, Heard-SameView}
use atemproxy.Proxy.System.EveryClient
use atemproxy.Proxy.System.Runs.{
  IsSystem, AnyInCm, heard_in, Run-IsSystem, client_session-after_init,
}

abbrev pub config : Config
config = Config.default_config 0

-- The endpoint of a session with the switcher, which expects packet 1.
abbrev pub rel : ReliableEndpoint
rel =
    let ep = new_endpoint 0x8001 default_config 0 in
    record ep { next_send_id = 1; ack = record ep.ack { expected_recv = 1 } }

abbrev pub idle : System
idle = initial rel

abbrev pub begun : System
begun = switched (begin_session rel idle.upstream) idle

abbrev pub program : List ℕ
program = serialize_command (command_name b'P' b'r' b'g' b'I') (0 ∷ 0 ∷ 0 ∷ 2 ∷ [])

-- The switcher's packet 1, with a program setting and `InCm`.
abbrev pub init_packet : List ℕ
init_packet =
    encode_packet (record (new ack_request 0x8001 0) { packet_id = 1 })
      (program ++ synthetic_init_complete)

abbrev pub connected : System
connected = switched (on_datagram 5 init_packet begun.upstream).0 begun

pub connected-Run : Run config idle connected
connected-Run =
    then_ idle begun connected (then_ idle idle begun (nothing idle) (session_began rel idle refl))
      (switcher_sent 5 init_packet begun)

Run-IsSystem_example :
    IsSystem connected × (connected.upstream.is_connected ≡ true → AnyInCm (heard_in connected-Run))
Run-IsSystem_example = Run-IsSystem config rel connected connected-Run

abbrev pub welcomed : Server
welcomed = record connected.server {
  sessions = (7, new_session (server_session_id 1) 9) ∷ [];
  next_sid = 2;
}

pub hello_answered :
    on_client config 9 (build_client_handshake 0x1234) 7 connected
    ≡ ok (welcomed, send_to 7 (build_server_handshake_reply (server_session_id 1)) ∷ [])
unfolding on_datagram begin_session on_packet on_reliable handle_upstream_payload handle_commands
    on_init_complete publish_state publish_audio publish_transfer chunk_commands chunk_command
    note_recv on_ack_id pop_covered accept_reliable next_packet_id handle_datagram
    build_client_handshake encode_packet encode decode_packet decode is_handshake_packet contains
    on_hello put parse_commands parse_loop parse_round synthetic_init_complete serialize_command
    name_eq Classify.is_transfer_command Classify.one_of Classify.str_and Command.as_str
    Utf8.chars_from Utf8.next Classify.starts_with Classify.is_lock_status
    Classify.is_ephemeral_command Locks.on_upstream_lock_status Locks.status_commands
    Locks.status_command
hello_answered = refl

client_session-after_init_example :
    AnyInCm (heard_in connected-Run)
    × (connected.upstream.init_complete ≡ true)
    × (connected.upstream.cache.ready ≡ true)
client_session-after_init_example =
    client_session-after_init config rel connected 9 (build_client_handshake 0x1234) 7 welcomed
      (send_to 7 (build_server_handshake_reply (server_session_id 1)) ∷ []) connected-Run
      hello_answered new_id
  where
    new_id : welcomed.next_sid ≢ connected.server.next_sid
    new_id e = omega arith

abbrev pub serving : System
serving =
    served welcomed (send_to 7 (build_server_handshake_reply (server_session_id 1)) ∷ []) connected

abbrev pub client : ClientSession
client = new_session (server_session_id 1) 9

-- The client's first acknowledgement.
abbrev pub ack : List ℕ
ack = encode_packet (new ack_reply (server_session_id 1) 0) []

abbrev pub opened_client : ClientSession
opened_client = record client {
  opened = true;
  dump_sent = true;
  rel = record client.rel {
    opened = true;
    last_recv_at = 12;
    outbound = (program ++ synthetic_init_complete) ∷ [];
  };
}

abbrev pub opened_server : Server
opened_server = record welcomed { sessions = (7, opened_client) ∷ [] }

pub ack_answered : on_client config 12 ack 7 serving ≡ ok (opened_server, [])
unfolding on_datagram begin_session on_packet on_reliable handle_upstream_payload handle_commands
    on_init_complete publish_state publish_audio publish_transfer chunk_commands chunk_command
    note_recv on_ack_id pop_covered accept_reliable next_packet_id handle_datagram
    build_client_handshake encode_packet encode decode_packet decode is_handshake_packet contains
    on_hello put get parse_commands parse_loop parse_round synthetic_init_complete serialize_command
    name_eq Server.on_packet Server.on_ack queue_commands_packed pack dump
    Classify.is_transfer_command Classify.one_of Classify.str_and Command.as_str Utf8.chars_from
    Utf8.next Classify.starts_with Classify.is_lock_status Classify.is_ephemeral_command
    Locks.on_upstream_lock_status Locks.status_commands Locks.status_command Cache.ingest_payload
    Cache.ingest_commands Cache.ingest_command Cache.is_skipped Classify.is_lock_command
    Cache.upsert Classify.command_identity Cache.key_eq
ack_answered = refl

abbrev pub open_system : System
open_system = served opened_server [] serving

init_packet-AreBytes : AreBytes init_packet
unfolding encode_packet encode serialize_command synthetic_init_complete
init_packet-AreBytes = omega arith

pub serving-Heard : Heard config 7 serving empty
unfolding get
serving-Heard =
    EveryClient.then_ connected serving empty
      (EveryClient.then_ begun connected empty
        (EveryClient.then_ idle begun empty (EveryClient.start rel) (session_began rel idle refl)
          tt)
        (switcher_sent 5 init_packet begun) init_packet-AreBytes)
      (client_sent 9 (build_client_handshake 0x1234) 7 welcomed
        (send_to 7 (build_server_handshake_reply (server_session_id 1)) ∷ []) connected
        hello_answered)
      tt

open_system-Heard : Heard config 7 open_system empty
unfolding get
open_system-Heard =
    EveryClient.then_ serving open_system empty serving-Heard
      (client_sent 12 ack 7 opened_server [] serving ack_answered) tt

pub waiting : open_system.unread ≡ state_payload program ∷ UpstreamEvent.connected ∷ []
unfolding on_datagram begin_session on_packet on_reliable handle_upstream_payload handle_commands
    on_init_complete publish_state publish_audio publish_transfer chunk_commands chunk_command
    note_recv on_ack_id pop_covered accept_reliable next_packet_id handle_datagram
    build_client_handshake encode_packet encode decode_packet decode is_handshake_packet contains
    on_hello put get parse_commands parse_loop parse_round synthetic_init_complete serialize_command
    name_eq Classify.is_transfer_command Classify.one_of Classify.str_and Command.as_str
    Utf8.chars_from Utf8.next Classify.starts_with Classify.is_lock_status
    Classify.is_ephemeral_command Locks.on_upstream_lock_status Locks.status_commands
    Locks.status_command
waiting = refl

found : get 7 open_system.server.sessions ≡ some opened_client
unfolding get
found = refl

Heard-SameView_example :
    SameView
      (ingest_all (opened_client.rel.outbound ++ states open_system.unread) empty)
      open_system.upstream.cache
Heard-SameView_example =
    Heard-SameView config 7 open_system empty opened_client open_system-Heard found refl
      (subst Unbroken (sym waiting) tt)
