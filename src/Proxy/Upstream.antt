-- ===== src/Proxy/Upstream.antt =====
-- crates/atem-proxy/src/upstream.rs: the session with the switcher. Each arm of the loop of
-- `run_session` is a function of the state, and returns the packets that it sends; the clock and
-- what arrives are arguments. Sends that fail and the cancellation token are left out.
pub mod Chunking
pub mod Readiness
pub mod Init
pub mod Runs
pub mod Hearing
pub mod Hints
pub mod Following
pub mod LateJoin
pub mod Outbox
pub mod Commanding
pub mod Hello
pub mod Lengths
pub mod Fitting
pub mod Backoff
mod Tests
use atemproxy.Prelude.{
  ℕ, ◌+◌, ◌*◌, bit_and, Bool, true, false, not, ◌&&◌, ◌||◌, Option, none, some, List, [], ◌∷◌, ◌++◌,
  ltb, leb, ◌==◌, if◌then◌else◌, length, is_empty, min,
}
use atemproxy.Protocol.Error.{Result, ok, err}
use atemproxy.Protocol.Packet.{
  PacketHeader, contains, ack_request, ack_reply, is_retransmit, decode_packet,
}
use atemproxy.Protocol.Command.{CommandRef, name_eq, init_complete, parse_commands}
use atemproxy.Protocol.Classify.{is_transfer_command, is_lock_status, is_ephemeral_command}
use atemproxy.Protocol.Session.{
  is_handshake_packet, parse_handshake_status, handshake_ok_status, build_client_handshake,
  build_init_complete_ack,
}
use atemproxy.Protocol.Reliable.{
  Millis, ReliableEndpoint, new_endpoint, default_config, next_packet_id, note_recv, is_timed_out,
  queue_commands_packed, on_ack_id, accept_reliable, build_ack_packet, build_retransmit_request,
}
use atemproxy.Protocol.Outbound.{poll_outbound}
use atemproxy.Proxy.Locks.{LockTable, on_upstream_lock_status}
use atemproxy.Proxy.Cache.{StateCache, set_ready, ingest_payload}
use atemproxy.Proxy.Cache

pub data UpstreamEvent : Type 0 where
  connected disconnected : UpstreamEvent
  state_payload audio_levels transfer_payload : List ℕ → UpstreamEvent

-- The session, and what it shares with the rest of the proxy. `events` are those sent, oldest first.
pub record Upstream : Type 0 where
  pub rel : ReliableEndpoint
  pub init_complete : Bool
  pub reached_ready : Bool
  pub is_connected : Bool
  pub cache : StateCache
  pub locks : LockTable
  pub pending_cmds : List (List ℕ)
  pub events : List UpstreamEvent

pub record Chunks : Type 0 where
  pub state_chunk : List ℕ
  pub audio_chunk : List ℕ
  pub transfer_chunk : List ℕ
  pub saw_incm : Bool

abbrev pub no_chunks : Chunks
no_chunks = record { state_chunk = []; audio_chunk = []; transfer_chunk = []; saw_incm = false }

-- The body of the loop over the commands.
unfoldable pub chunk_command : CommandRef → Chunks → Chunks
chunk_command cmd c =
    if name_eq cmd.name init_complete
    then record c { saw_incm = true }
    else (if is_transfer_command cmd.name
        then record c { transfer_chunk = c.transfer_chunk ++ cmd.raw }
        else (if is_lock_status cmd.name
            then record c { state_chunk = c.state_chunk ++ cmd.raw }
            else (if is_ephemeral_command cmd.name
                then record c { audio_chunk = c.audio_chunk ++ cmd.raw }
                else record c { state_chunk = c.state_chunk ++ cmd.raw })))

unfoldable pub chunk_commands : List CommandRef → Chunks → Chunks
chunk_commands [] c = c
chunk_commands (cmd ∷ cmds) c = chunk_commands cmds (chunk_command cmd c)

abbrev pub emit : UpstreamEvent → Upstream → Upstream
emit e st = record st { events = st.events ++ (e ∷ []) }

unfoldable pub publish_state : List ℕ → Upstream → Upstream
publish_state chunk st =
    if is_empty chunk
    then st
    else emit (state_payload chunk) (record st {
      locks = on_upstream_lock_status chunk st.locks;
      cache = ingest_payload chunk st.cache;
    })

unfoldable pub publish_audio : List ℕ → Upstream → Upstream
publish_audio chunk st = if is_empty chunk then st else emit (audio_levels chunk) st

unfoldable pub publish_transfer : List ℕ → Upstream → Upstream
publish_transfer chunk st = if is_empty chunk then st else emit (transfer_payload chunk) st

abbrev highest_or_zero : ReliableEndpoint → ℕ
highest_or_zero rel = elim rel.ack.highest_recv [ none ↦ 0 | some id ↦ id ]

-- A real `InCm`: the proxy is ready, and says so once.
unfoldable pub on_init_complete : Upstream → Upstream × List (List ℕ)
on_init_complete st =
    let ready = record st {
      init_complete = true;
      reached_ready = true;
      is_connected = true;
      cache = set_ready true st.cache;
    } in
    if st.is_connected then (ready, []) else (
      record (emit connected ready) { rel = record st.rel { opened = true } },
      build_init_complete_ack st.rel.session_id (highest_or_zero st.rel) ∷ [],
    )

unfoldable pub handle_commands : List CommandRef → Upstream → Upstream × List (List ℕ)
handle_commands cmds st =
    let c = chunk_commands cmds no_chunks in
    let st' =
      publish_transfer c.transfer_chunk
        (publish_audio c.audio_chunk (publish_state c.state_chunk st)) in
    if c.saw_incm then on_init_complete st' else (st', [])

unfoldable pub handle_upstream_payload : List ℕ → Upstream → Upstream × List (List ℕ)
handle_upstream_payload payload st = elim (parse_commands payload) [
  | err _ ↦
      (emit (state_payload payload) (record st { cache = ingest_payload payload st.cache }), [])
  | ok cmds ↦ handle_commands cmds st
]

abbrev pub with_rel : ReliableEndpoint → Upstream → Upstream
with_rel rel st = record st { rel = rel }

abbrev pub adopt_session : PacketHeader → ReliableEndpoint → ReliableEndpoint
adopt_session hdr rel =
    if hdr.session_id == 0 then rel else record rel { session_id = hdr.session_id }

abbrev pub carries_ack : PacketHeader → Bool
carries_ack hdr = contains hdr.flags ack_reply || not (hdr.ack_id == 0)

abbrev pub take_ack : PacketHeader → ReliableEndpoint → ReliableEndpoint
take_ack hdr rel = if carries_ack hdr then on_ack_id hdr.ack_id rel else rel

abbrev pub deliver : List ℕ → Upstream → Upstream × List (List ℕ)
deliver payload st = if is_empty payload then (st, []) else handle_upstream_payload payload st

-- A packet that the switcher wants acknowledged is delivered in order or asked for again.
unfoldable pub on_reliable : PacketHeader → List ℕ → Upstream → Upstream × List (List ℕ)
on_reliable hdr payload st =
    let (rel, ok_) = accept_reliable hdr.packet_id (contains hdr.flags is_retransmit) st.rel in
    if ok_
    then deliver payload (with_rel rel st)
    else (with_rel rel st, build_retransmit_request rel ∷ [])

-- The arm `sock.recv`, for a packet that could be decoded.
unfoldable pub on_packet : PacketHeader → List ℕ → Upstream → Upstream × List (List ℕ)
on_packet hdr payload st =
    let st' = with_rel (take_ack hdr (adopt_session hdr st.rel)) st in
    if is_handshake_packet hdr.flags
    then (st', [])
    else (if contains hdr.flags ack_request
        then on_reliable hdr payload st'
        else deliver payload st')

unfoldable pub on_datagram : Millis → List ℕ → Upstream → Upstream × List (List ℕ)
on_datagram now bytes st =
    let heard = with_rel (note_recv now st.rel) st in
    elim (decode_packet bytes) [
      | err _ ↦ (heard, [])
      | ok (hdr, payload) ↦ on_packet hdr payload heard
    ]

-- Commands shorter than a frame's header are dropped.
unfoldable pub keep_framed : List (List ℕ) → List (List ℕ)
keep_framed [] = []
keep_framed (raw ∷ more) =
    let rest = keep_framed more in if ltb (length raw) 8 then rest else raw ∷ rest

abbrev pub poll : Millis → Millis → Upstream → Upstream × List (List ℕ)
poll now clock st = let (rel, out) = poll_outbound now clock st.rel in (with_rel rel st, out)

-- The arm `cmd_rx.recv`: a command and those that wait behind it.
unfoldable pub on_command :
    Millis → Millis → List ℕ → List (List ℕ) → Upstream → Upstream × List (List ℕ)
on_command now clock raw queued st =
    if ltb (length raw) 8
    then (st, [])
    else (let batch = st.pending_cmds ++ (raw ∷ keep_framed queued) in
        poll now clock (record st { rel = queue_commands_packed batch st.rel; pending_cmds = [] }))

abbrev pub flush_pending : Upstream → Upstream
flush_pending st =
    if is_empty st.pending_cmds
    then st
    else record st { rel = queue_commands_packed st.pending_cmds st.rel; pending_cmds = [] }

-- The arm `tick`; `none` ends the session.
unfoldable pub on_tick : Millis → Millis → Upstream → Option (Upstream × List (List ℕ))
on_tick now clock st =
    if is_timed_out now st.rel then none else some (poll now clock (flush_pending st))

-- The HELLO of `run_session`; `random` is what `random_session` returns.
unfoldable pub hello : ℕ → List ℕ
hello random = build_client_handshake (bit_and random 0x7fff)

abbrev accepted_endpoint : PacketHeader → Millis → ReliableEndpoint
accepted_endpoint hdr now =
    let rel = new_endpoint hdr.session_id default_config now in
    record rel {
      ack = record rel.ack {
        highest_recv = some hdr.packet_id;
        expected_recv = next_packet_id hdr.packet_id;
      };
      next_send_id = 1;
    }

abbrev is_status_ok : List ℕ → Bool
is_status_ok payload = elim (parse_handshake_status payload) [
  | none ↦ false
  | some s ↦ s == handshake_ok_status
]

-- The reply to our HELLO: the endpoint of the session and its first acknowledgement, or a failure.
unfoldable pub on_hello_reply : Millis → List ℕ → Option (ReliableEndpoint × Option (List ℕ))
on_hello_reply now bytes = elim (decode_packet bytes) [
  | err _ ↦ none
  | ok (hdr, payload) ↦
      if is_handshake_packet hdr.flags && is_status_ok payload
      then some (build_ack_packet now (accepted_endpoint hdr now))
      else none
]

-- What `run_session` starts from once the switcher has replied.
unfoldable pub begin_session : ReliableEndpoint → Upstream → Upstream
begin_session rel st = record st {
  rel = rel;
  init_complete = false;
  reached_ready = false;
  pending_cmds = [];
}

-- After a session, in `spawn_upstream`.
unfoldable pub end_session : Upstream → Upstream
end_session st =
    emit disconnected (record st { is_connected = false; cache = Cache.empty; locks = [] })

-- The value of `backoff` after a round of the loop of `spawn_upstream`; `ok_` says whether the round's
-- session became ready.
unfoldable pub next_backoff : Millis → Bool → Millis → Millis
next_backoff base ok_ backoff = if ok_ then base else min (backoff * 2) 30000

-- `reconnect_ms.max(200)`, the first value.
abbrev pub base_backoff : ℕ → Millis
base_backoff reconnect_ms = if ltb reconnect_ms 200 then 200 else reconnect_ms

-- The values of `backoff` after the rounds of a list, the last first.
unfoldable pub backoff_after : Millis → List Bool → Millis
backoff_after base [] = base
backoff_after base (ok_ ∷ rounds) = next_backoff base ok_ (backoff_after base rounds)
