-- ===== src/Proxy/Server.antt =====
-- crates/atem-proxy/src/server.rs: the clients' sessions. A datagram, an event of the switcher's
-- side and a tick of the timer are steps of the state; what is sent is returned as effects. Pacing
-- has the pauses between the packets of a transfer. Sends that fail are left out.
pub mod Handshake
pub mod Datagram
pub mod Fanout
pub mod Timeout
pub mod Queues
pub mod Endpoints
pub mod Keyed
pub mod Sessions
pub mod Passes
pub mod Pacing
mod Tests
use atemproxy.Prelude.{
  ℕ, ◌+◌, ◌-◌, ◌%◌, ◌^◌, Bool, true, false, not, ◌&&◌, ◌||◌, Option, none, some, List, [], ◌∷◌,
  ◌++◌, ltb, ◌==◌, if◌then◌else◌, is_empty, map,
}
use atemproxy.Protocol.Error.{Result, ok, err, ◌>>=◌}
use atemproxy.Protocol.Packet.{
  PacketHeader, contains, ack_request, ack_reply, is_retransmit, decode_packet,
}
use atemproxy.Protocol.Session.{
  server_session_id, is_handshake_packet, build_server_handshake_reply,
}
use atemproxy.Protocol.Reliable.{
  Millis, ReliableConfig, ReliableEndpoint, new_endpoint, default_config, note_recv, queue_payload,
  queue_commands_packed, on_ack_id, accept_reliable, build_retransmit_request,
}
use atemproxy.Protocol.Outbound.{poll_outbound}
use atemproxy.Proxy.Net.{SocketAddr, get, put}
use atemproxy.Proxy.Cache.{StateCache, dump}
use atemproxy.Proxy.Transfer.{fanout_owner}
use atemproxy.Proxy.Filter
use atemproxy.Proxy.Filter.{FilterPolicy, FilterState, FilterAction, process_payload}
use atemproxy.Proxy.Upstream.{UpstreamEvent}

pub record ClientSession : Type 0 where
  pub rel : ReliableEndpoint
  pub dump_sent : Bool
  pub opened : Bool
  pub audio : Bool

pub record Server : Type 0 where
  pub sessions : List (SocketAddr × ClientSession)
  pub next_sid : ℕ
  pub filter : FilterState

pub data Effect : Type 0 where
  send_to : SocketAddr → List ℕ → Effect
  to_upstream : List ℕ → Effect

abbrev pub client_config : ReliableConfig
client_config = record default_config { idle_timeout = 5000 }

-- A session as a HELLO makes it: the first packet of either side has id 1.
abbrev pub new_session : ℕ → Millis → ClientSession
new_session session_id now =
    let rel = new_endpoint session_id client_config now in
    record {
      rel = record rel {
        next_send_id = 1;
        ack = record rel.ack { expected_recv = 1 };
        last_recv_at = now;
      };
      dump_sent = false;
      opened = false;
      audio = false;
    }

-- `fetch_add` on an `AtomicU16` wraps. A HELLO is answered only while the switcher is ready. The
-- source awaits the sending of the reply before it inserts the session; here both are one step.
unfoldable pub on_hello : Bool → StateCache → Millis → SocketAddr → Server → Server × List Effect
on_hello is_connected cache now addr st =
    if is_connected && cache.ready
    then (let session_id = server_session_id st.next_sid in
        (
          record st {
            next_sid = (st.next_sid + 1) % 2 ^ 16;
            sessions = put addr (new_session session_id now) st.sessions;
          },
          send_to addr (build_server_handshake_reply session_id) ∷ [],
        ))
    else (st, [])

-- The first acknowledgement opens the session and queues the dump.
abbrev pub open_session : List (List ℕ) → ClientSession → ClientSession
open_session commands s =
    if s.opened
    then s
    else (let rel = record s.rel { opened = true } in
        record s {
          opened = true;
          rel = if s.dump_sent then rel else queue_commands_packed commands rel;
          dump_sent = true;
        })

unfoldable pub on_ack : PacketHeader → List (List ℕ) → ClientSession → ClientSession
on_ack hdr commands s =
    if contains hdr.flags ack_reply || not (hdr.ack_id == 0)
    then open_session commands (record s { rel = on_ack_id hdr.ack_id s.rel })
    else s

-- The loop over the filter's actions: the session's flag, and the commands to forward.
unfoldable pub apply_actions : List FilterAction → Bool → Bool × List (List ℕ)
apply_actions [] audio = (audio, [])
apply_actions (FilterAction.forward raw ∷ actions) audio =
    let (audio', cmds) = apply_actions actions audio in (audio', raw ∷ cmds)
apply_actions (FilterAction.dropped name reason ∷ actions) audio = apply_actions actions audio
apply_actions (FilterAction.audio_subscribe enable none ∷ actions) audio =
    apply_actions actions enable
apply_actions (FilterAction.audio_subscribe enable (some raw) ∷ actions) audio =
    let (audio', cmds) = apply_actions actions enable in (audio', raw ∷ cmds)

abbrev pub with_rel : ReliableEndpoint → ClientSession → ClientSession
with_rel rel s = record s { rel = rel }

-- A packet of a client that wants an acknowledgement: filtered if it is the expected one, asked for
-- again if it is not.
unfoldable pub on_reliable :
    FilterPolicy
    → SocketAddr
    → Millis
    → PacketHeader
    → List ℕ
    → ClientSession
    → FilterState
    → ClientSession × FilterState × List Effect
on_reliable policy addr now hdr payload s f =
    let (rel, accepted) = accept_reliable hdr.packet_id (contains hdr.flags is_retransmit) s.rel in
    if accepted
    then (if is_empty payload
        then (with_rel rel s, f, [])
        else (let (f', actions) = process_payload policy addr now payload f in
            let (audio, cmds) = apply_actions actions s.audio in
            (record s { rel = rel; audio = audio }, f', map to_upstream cmds)))
    else (with_rel rel s, f, send_to addr (build_retransmit_request rel) ∷ [])

-- A packet of a client that has a session.
unfoldable pub on_packet :
    FilterPolicy
    → StateCache
    → SocketAddr
    → Millis
    → PacketHeader
    → List ℕ
    → ClientSession
    → FilterState
    → ClientSession × FilterState × List Effect
on_packet policy cache addr now hdr payload s f =
    let s' = on_ack hdr (dump cache) (record s { rel = note_recv now s.rel }) in
    if contains hdr.flags ack_request
    then on_reliable policy addr now hdr payload s' f
    else (s', f, [])

abbrev pub on_session :
    FilterPolicy
    → StateCache
    → SocketAddr
    → Millis
    → PacketHeader
    → List ℕ
    → Server
    → Server × List Effect
on_session policy cache addr now hdr payload st = elim (get addr st.sessions) [
  | none ↦ (st, [])
  | some s ↦
      let (s', f', effects) = on_packet policy cache addr now hdr payload s st.filter in
      (record st { sessions = put addr s' st.sessions; filter = f' }, effects)
]

unfoldable pub handle_datagram :
    FilterPolicy
    → Bool
    → StateCache
    → Millis
    → List ℕ
    → SocketAddr
    → Server
    → Result (Server × List Effect)
handle_datagram policy is_connected cache now bytes addr st = decode_packet bytes >>= λ p. ok (
    if is_handshake_packet p.0.flags
    then on_hello is_connected cache now addr st
    else on_session policy cache addr now p.0 p.1 st)

abbrev pub each : (ClientSession → ClientSession) → Server → Server
each f st = record st { sessions = map (λ e. (e.0, f e.1)) st.sessions }

-- The `if` of the loop over the sessions.
unfoldable pub queue_if : Bool → List ℕ → ClientSession → ClientSession
queue_if wanted payload s = if wanted then with_rel (queue_payload payload s.rel) s else s

abbrev pub to_owner : Option SocketAddr → List ℕ → Server → Server
to_owner none payload st = st
to_owner (some owner) payload st = elim (get owner st.sessions) [
  | none ↦ st
  | some s ↦ record st { sessions = put owner (queue_if s.opened payload s) st.sessions }
]

-- The task that fans events out.
unfoldable pub on_event : FilterPolicy → UpstreamEvent → Server → Server
on_event policy UpstreamEvent.connected st = st
on_event policy UpstreamEvent.disconnected st = record st {
  sessions = [];
  filter = record st.filter { lane = none };
}
on_event policy (UpstreamEvent.state_payload payload) st =
    each (λ s. queue_if s.opened payload s) st
on_event policy (UpstreamEvent.audio_levels payload) st =
    each (λ s. queue_if (s.opened && s.audio) payload s) st
on_event policy (UpstreamEvent.transfer_payload payload) st =
    to_owner (fanout_owner policy.media st.filter.locks st.filter.lane) payload st

-- `RecvError::Lagged`: opened clients are sent the dump again.
unfoldable pub on_lagged : StateCache → Server → Server
on_lagged cache st =
    each (λ s. if s.opened then with_rel (queue_commands_packed (dump cache) s.rel) s else s) st

-- The pass of the timer over the sessions: those that live on, the dead, and the packets.
unfoldable pub poll_sessions :
    ℕ
    → Millis
    → Millis
    → List (SocketAddr × ClientSession)
    → List (SocketAddr × ClientSession) × List SocketAddr × List Effect
poll_sessions idle now clock [] = ([], [], [])
poll_sessions idle now clock ((addr, s) ∷ sessions) =
    let (alive, dead, effects) = poll_sessions idle now clock sessions in
    let (rel, packets) = poll_outbound now clock s.rel in
    if ltb idle (now - s.rel.last_recv_at)
    then (alive, addr ∷ dead, effects)
    else ((addr, with_rel rel s) ∷ alive, dead, map (send_to addr) packets ++ effects)

unfoldable pub disconnect_all : List SocketAddr → FilterState → FilterState × List Effect
disconnect_all [] f = (f, [])
disconnect_all (addr ∷ dead) f =
    let (f', cmds) = Filter.client_disconnected addr f in
    let (f'', effects) = disconnect_all dead f' in (f'', map to_upstream cmds ++ effects)

-- `client_idle_ms.max(500)`
abbrev pub idle_limit : ℕ → ℕ
idle_limit client_idle_ms = if ltb client_idle_ms 500 then 500 else client_idle_ms

unfoldable pub on_tick : ℕ → Millis → Millis → Server → Server × List Effect
on_tick client_idle_ms now clock st =
    let (alive, dead, packets) = poll_sessions (idle_limit client_idle_ms) now clock st.sessions in
    let (f, cleanup) = disconnect_all dead st.filter in
    (record st { sessions = alive; filter = f }, cleanup ++ packets)
