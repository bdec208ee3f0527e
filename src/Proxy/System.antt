-- ===== src/Proxy/System.antt =====
-- crates/atem-proxy/src/proxy.rs: the proxy as a whole. Both sides share one lock table; the
-- switcher's side serves its cache and its readiness to the clients' side, and sends it events; the
-- clients' side sends commands back. What crosses stands in queues until it is taken.
pub mod Runs
pub mod Clients
pub mod Telling
pub mod Serving
pub mod Knowing
pub mod Datagrams
pub mod Fanning
pub mod EveryClient
pub mod Balancing
pub mod Commanding
pub mod Joining
pub mod Elsewhere
pub mod EndToEnd
pub mod Delivered
pub mod Fitting
pub mod Queues
pub mod Uncut
pub mod Linking
pub mod Network
mod Tests
mod LinkTests
mod CommandTests
use atemproxy.Prelude.{
  ℕ, Bool, true, false, Option, none, some, List, [], ◌∷◌, ◌++◌, ◌≡◌, length, drop, ltb,
  if◌then◌else◌,
}
use atemproxy.Protocol.Error.{Result, ok, err}
use atemproxy.Protocol.Reliable.{Millis, ReliableEndpoint}
use atemproxy.Proxy.Net.{SocketAddr}
use atemproxy.Proxy.Config.{Config, atem_addr}
use atemproxy.Proxy.Config
use atemproxy.Proxy.Filter.{FilterPolicy, new_filter}
use atemproxy.Proxy.Cache
use atemproxy.Proxy.Upstream.{
  Upstream, UpstreamEvent, on_datagram, on_command, on_tick, begin_session, end_session,
}
use atemproxy.Proxy.Server.{
  Server, Effect, send_to, to_upstream, handle_datagram, on_event, on_lagged,
}
use atemproxy.Proxy.Server

-- The lock table is the one of `upstream`; the filter's copy is set from it before each use.
pub record System : Type 0 where
  pub upstream : Upstream
  pub server : Server
  pub commands : List (List ℕ)
  pub unread : List UpstreamEvent

abbrev pub policy_of : Config → FilterPolicy
policy_of config = record { lock_mode = config.locks.mode; media = config.media }

-- The parts before anything arrives. `rel` stands for the endpoint that the
-- first session with the switcher replaces.
abbrev pub initial : ReliableEndpoint → System
initial rel = record {
  upstream = record {
    rel = rel;
    init_complete = false;
    reached_ready = false;
    is_connected = false;
    cache = Cache.empty;
    locks = [];
    pending_cmds = [];
    events = [];
  };
  server = record { sessions = []; next_sid = 1; filter = new_filter };
  commands = [];
  unread = [];
}

-- The proxy that `run_proxy` starts: the switcher's address, its parts, and whether it announces
-- itself.
pub record Proxy : Type 0 where
  pub atem : SocketAddr
  pub system : System
  pub announces : Bool

unfoldable pub run_proxy : Config.Outside → Config → ReliableEndpoint → Option Proxy
run_proxy o config rel = elim (atem_addr o config) [
  | none ↦ none
  | some atem ↦
      some (record { atem = atem; system = initial rel; announces = config.discovery.mdns })
]

abbrev pub with_locks : System → Server
with_locks st = record st.server { filter = record st.server.filter { locks = st.upstream.locks } }

unfoldable pub forwarded : List Effect → List (List ℕ)
forwarded [] = []
forwarded (send_to addr bytes ∷ effects) = forwarded effects
forwarded (to_upstream cmd ∷ effects) = cmd ∷ forwarded effects

-- The clients' side has become `server`, with these effects.
abbrev pub served : Server → List Effect → System → System
served server effects st = record st {
  server = server;
  upstream = record st.upstream { locks = server.filter.locks };
  commands = st.commands ++ forwarded effects;
}

-- The switcher's side has become `upstream`.
abbrev pub switched : Upstream → System → System
switched upstream st = record st {
  upstream = upstream;
  unread = st.unread ++ drop (length st.upstream.events) upstream.events;
}

abbrev pub on_client :
    Config → Millis → List ℕ → SocketAddr → System → Result (Server × List Effect)
on_client config now bytes addr st =
    handle_datagram (policy_of config) st.upstream.is_connected st.upstream.cache now bytes addr
      (with_locks st)

abbrev pub on_timer : Config → Millis → Millis → System → Server × List Effect
on_timer config now clock st = Server.on_tick config.client_idle_ms now clock (with_locks st)

-- What a round of `cmd_rx` leaves: it takes the commands behind a framed one, and only that of a
-- short one.
abbrev pub left_after : List ℕ → List (List ℕ) → List (List ℕ) → List (List ℕ)
left_after raw queued rest = if ltb (length raw) 8 then queued ++ rest else rest

-- The tasks of the proxy, one round of a loop at a time, in any order. A task that lags behind the
-- events skips some of them.
pub data Step (config : Config) : System → System → Type 0 where
  client_sent :
      (now : Millis) (bytes : List ℕ) (addr : SocketAddr) (server : Server) (effects : List Effect)
      (st : System)
      → on_client config now bytes addr st ≡ ok (server, effects)
      → Step config st (served server effects st)
  timer :
      (now clock : Millis) (st : System)
      → Step config st (served (on_timer config now clock st).0 (on_timer config now clock st).1 st)
  fanned_out :
      (e : UpstreamEvent) (unread : List UpstreamEvent) (st : System)
      → st.unread ≡ e ∷ unread
      → Step config st (record (served (on_event (policy_of config) e (with_locks st)) [] st) {
        unread = unread;
      })
  lagged :
      (skipped unread : List UpstreamEvent) (st : System)
      → st.unread ≡ skipped ++ unread
      → Step config st
          (record (served (on_lagged st.upstream.cache (with_locks st)) [] st) { unread = unread })
  switcher_sent :
      (now : Millis) (bytes : List ℕ) (st : System)
      → Step config st (switched (on_datagram now bytes st.upstream).0 st)
  commanded :
      (now clock : Millis) (raw : List ℕ) (queued rest : List (List ℕ)) (st : System)
      → st.commands ≡ raw ∷ (queued ++ rest)
      → Step config st (record (switched (on_command now clock raw queued st.upstream).0 st) {
        commands = left_after raw queued rest;
      })
  switcher_ticked :
      (now clock : Millis) (upstream : Upstream) (out : List (List ℕ)) (st : System)
      → on_tick now clock st.upstream ≡ some (upstream, out)
      → Step config st (switched upstream st)
  session_ended : (st : System) → Step config st (switched (end_session st.upstream) st)
  session_began :
      (rel : ReliableEndpoint) (st : System)
      → st.upstream.is_connected ≡ false
      → Step config st (switched (begin_session rel st.upstream) st)

pub data Run (config : Config) : System → System → Type 0 where
  nothing : (st : System) → Run config st st
  then_ : (st st' st'' : System) → Run config st st' → Step config st' st'' → Run config st st''
