-- ===== src/Proxy/System/Runs.antt =====
-- What holds of the proxy of proxy.rs at every time.
use atemproxy.Prelude.{
  ℕ, ◌≡◌, refl, ap, sym, subst, ◌∙◌, true, false, ◌&&◌, inl, inr, List, arith, Bool-cases,
  Option-cases, ◌≢◌, ◌⊎◌, [], ◌∷◌,
}
use atemproxy.Protocol.Error.{ok, ok-injective, bind-eq-ok}
use atemproxy.Protocol.Packet.{PacketHeader, decode_packet}
use atemproxy.Protocol.Session.{is_handshake_packet}
use atemproxy.Protocol.Reliable.{Millis, ReliableEndpoint}
use atemproxy.Proxy.Net.{SocketAddr, get}
use atemproxy.Proxy.Config.{Config}
use atemproxy.Proxy.Upstream.{Upstream, begin_session, end_session}
use atemproxy.Proxy.Upstream.Init.{
  BringsInCm, on_datagram-Connects, on_command-connected, on_tick-connected,
}
use atemproxy.Proxy.Upstream.Readiness.{IsReady}
use atemproxy.Proxy.Upstream.Runs
use atemproxy.Proxy.Server.{Server, Effect, on_hello, on_session, handle_datagram}
use atemproxy.Proxy.Server.Sessions.{AllSessions}
use atemproxy.Proxy.Server.Passes.{
  handle_datagram-AllSessions, on_event-AllSessions, on_lagged-AllSessions, on_tick-AllSessions,
}
use atemproxy.Proxy.System.{
  System, policy_of, initial, with_locks, on_client, Step, Run, client_sent, timer, fanned_out,
  lagged, switcher_sent, commanded, switcher_ticked, session_ended, session_began, nothing, then_,
}

-- The clients' sessions and the switcher's side.
pub record IsSystem (st : System) : Type 0 where
  pub sessions : AllSessions st.server.sessions
  pub upstream_ready : IsReady st.upstream

on_client-AllSessions :
    (config : Config) (now : Millis) (bytes : List ℕ) (addr : SocketAddr) (server : Server)
    (effects : List Effect) (st : System)
    → on_client config now bytes addr st ≡ ok (server, effects)
    → AllSessions st.server.sessions
    → AllSessions server.sessions
unfolding handle_datagram
on_client-AllSessions config now bytes addr server effects st e h =
    let ((hdr, payload), d, r) = bind-eq-ok (decode_packet bytes) _ e in
    subst (λ (q : Server × List Effect). AllSessions q.0.sessions) (ok-injective r)
      (handle_datagram-AllSessions (policy_of config) st.upstream.is_connected st.upstream.cache now
        hdr payload addr (with_locks st) h)

begin_session-IsReady :
    (rel : ReliableEndpoint) (up : Upstream)
    → up.is_connected ≡ false
    → IsReady up
    → IsReady (begin_session rel up)
unfolding begin_session
begin_session-IsReady rel up q h = ((λ e. absurd (cc (e, q))), (λ e. absurd (cc (e, q))), h.2, h.3)

pub Step-IsSystem :
    (config : Config) (st st' : System) → Step config st st' → IsSystem st → IsSystem st'
Step-IsSystem config _ _ (client_sent now bytes addr server effects st e) w = record {
  sessions = on_client-AllSessions config now bytes addr server effects st e w.sessions;
  upstream_ready = w.upstream_ready;
}
Step-IsSystem config _ _ (timer now clock st) w = record {
  sessions = on_tick-AllSessions config.client_idle_ms now clock (with_locks st) w.sessions;
  upstream_ready = w.upstream_ready;
}
Step-IsSystem config _ _ (fanned_out e unread st q) w = record {
  sessions = on_event-AllSessions (policy_of config) e (with_locks st) w.sessions;
  upstream_ready = w.upstream_ready;
}
Step-IsSystem config _ _ (lagged skipped unread st q) w = record {
  sessions = on_lagged-AllSessions st.upstream.cache (with_locks st) w.sessions;
  upstream_ready = w.upstream_ready;
}
Step-IsSystem config _ _ (switcher_sent now bytes st) w = record {
  sessions = w.sessions;
  upstream_ready =
      Runs.Step-IsReady st.upstream _ (Runs.received now bytes st.upstream) w.upstream_ready;
}
Step-IsSystem config _ _ (commanded now clock raw queued rest st q) w = record {
  sessions = w.sessions;
  upstream_ready =
      Runs.Step-IsReady st.upstream _ (Runs.commanded now clock raw queued st.upstream)
        w.upstream_ready;
}
Step-IsSystem config _ _ (switcher_ticked now clock upstream out st q) w = record {
  sessions = w.sessions;
  upstream_ready =
      Runs.Step-IsReady st.upstream upstream (Runs.ticked now clock st.upstream upstream out q)
        w.upstream_ready;
}
Step-IsSystem config _ _ (session_ended st) w = record {
  sessions = w.sessions;
  upstream_ready = Runs.Step-IsReady st.upstream _ (Runs.failed st.upstream) w.upstream_ready;
}
Step-IsSystem config _ _ (session_began rel st q) w = record {
  sessions = w.sessions;
  upstream_ready = begin_session-IsReady rel st.upstream q w.upstream_ready;
}

pub initial-IsSystem : (rel : ReliableEndpoint) → IsSystem (initial rel)
initial-IsSystem rel = record {
  sessions = tt;
  upstream_ready = ((λ e. cc), (λ e. cc), (λ e. cc), refl);
}

-- The datagrams that the switcher has sent in the present session, the last one first.
abbrev pub heard_by :
    {config : Config} {st st' : System} → Step config st st' → List (List ℕ) → List (List ℕ)
heard_by (switcher_sent now bytes st) heard = bytes ∷ heard
heard_by (session_ended st) heard = []
heard_by (session_began rel st q) heard = []
heard_by _ heard = heard

abbrev pub heard_in : {config : Config} {st st' : System} → Run config st st' → List (List ℕ)
heard_in (nothing st) = []
heard_in (then_ st st' st'' run step) = heard_by step (heard_in run)

-- One of the datagrams brings `InCm`.
abbrev pub AnyInCm : List (List ℕ) → Type 0
AnyInCm [] = ⊥
AnyInCm (bytes ∷ heard) = BringsInCm bytes ⊎ AnyInCm heard

Step-AnyInCm :
    (config : Config) (st st' : System) (step : Step config st st') (heard : List (List ℕ))
    → (st.upstream.is_connected ≡ true → AnyInCm heard)
    → st'.upstream.is_connected ≡ true
    → AnyInCm (heard_by step heard)
unfolding end_session begin_session
Step-AnyInCm config _ _ (client_sent now bytes addr server effects st e) heard h c = h c
Step-AnyInCm config _ _ (timer now clock st) heard h c = h c
Step-AnyInCm config _ _ (fanned_out e unread st q) heard h c = h c
Step-AnyInCm config _ _ (lagged skipped unread st q) heard h c = h c
Step-AnyInCm config _ _ (switcher_sent now bytes st) heard h c =
    elim (on_datagram-Connects now bytes st.upstream c) [ inl k ↦ inr (h k) | inr k ↦ inl k ]
Step-AnyInCm config _ _ (commanded now clock raw queued rest st q) heard h c =
    h (sym (on_command-connected now clock raw queued st.upstream) ∙ c)
Step-AnyInCm config _ _ (switcher_ticked now clock upstream out st q) heard h c =
    h (sym (on_tick-connected now clock st.upstream upstream out q) ∙ c)
Step-AnyInCm config _ _ (session_ended st) heard h c = absurd (cc)
Step-AnyInCm config _ _ (session_began rel st q) heard h c = absurd (cc (c, q))

Run-AnyInCm :
    (config : Config) (rel : ReliableEndpoint) (st : System) (run : Run config (initial rel) st)
    → st.upstream.is_connected ≡ true
    → AnyInCm (heard_in run)
Run-AnyInCm config rel st run = from_start (initial rel) st run (λ c. absurd (cc))
  where
    from_start :
        (st st' : System) (run : Run config st st')
        → (st.upstream.is_connected ≡ true → ⊥)
        → st'.upstream.is_connected ≡ true
        → AnyInCm (heard_in run)
    from_start _ _ (nothing st) h c = h c
    from_start _ _ (then_ st st' st'' run step) h c =
        Step-AnyInCm config st' st'' step (heard_in run) (from_start st st' run h) c

-- From the start of the proxy on, whatever arrives on either side and in whatever order its tasks
-- take turns: each client's session has at most 32 packets in flight, with ids in a row up to the
-- next one to send, and its marks `opened` and `dump_sent` and that of its endpoint agree; and a proxy
-- that counts as connected has been sent, in the present session with the switcher, a datagram whose
-- payload is read as commands with `InCm` among them, serves a ready cache and has announced the
-- connection exactly once since the last end of one, while one that does not has not.
pub Run-IsSystem :
    (config : Config) (rel : ReliableEndpoint) (st : System) (run : Run config (initial rel) st)
    → IsSystem st × (st.upstream.is_connected ≡ true → AnyInCm (heard_in run))
Run-IsSystem config rel st run =
    (from_start (initial rel) st run (initial-IsSystem rel), Run-AnyInCm config rel st run)
  where
    from_start : (st st' : System) → Run config st st' → IsSystem st → IsSystem st'
    from_start _ _ (nothing st) w = w
    from_start _ _ (then_ st st' st'' run step) w =
        Step-IsSystem config st' st'' step (from_start st st' run w)

on_session-next_sid :
    (config : Config) (now : Millis) (addr : SocketAddr) (hdr : PacketHeader) (payload : List ℕ)
    (st : System)
    → (on_session
        (policy_of config)
        st.upstream.cache
        addr
        now
        hdr
        payload
        (with_locks st)).0.next_sid
      ≡ st.server.next_sid
on_session-next_sid config now addr hdr payload st =
    elim (Option-cases (get addr st.server.sessions)) [
      | inl e ↦ rw (e, on_session) refl
      | inr (s, e) ↦ rw (e, on_session) refl
    ]

keeps_count :
    (config : Config) (now : Millis) (bytes : List ℕ) (addr : SocketAddr) (server : Server)
    (effects : List Effect) (st : System)
    → on_client config now bytes addr st ≡ ok (server, effects)
    → (st.upstream.is_connected && st.upstream.cache.ready) ≡ false
    → server.next_sid ≡ st.server.next_sid
unfolding handle_datagram on_hello
keeps_count config now bytes addr server effects st e h =
    let ((hdr, payload), d, r) = bind-eq-ok (decode_packet bytes) _ e in
    sym (ap (λ (q : Server × List Effect). q.0.next_sid) (ok-injective r))
    ∙ elim (Bool-cases (is_handshake_packet hdr.flags)) [
      | inl k ↦ rw (k, h) refl
      | inr k ↦ rw k (on_session-next_sid config now addr hdr payload st)
    ]

-- From the start of the proxy on: where a client's datagram takes a session id, and so starts a
-- session, the switcher has sent in the present session a datagram whose payload is read as commands
-- with `InCm` among them, that `InCm` is noted, and the cache is ready.
pub client_session-after_init :
    (config : Config) (rel : ReliableEndpoint) (st : System) (now : Millis) (bytes : List ℕ)
    (addr : SocketAddr) (server : Server) (effects : List Effect)
    (run : Run config (initial rel) st)
    → on_client config now bytes addr st ≡ ok (server, effects)
    → server.next_sid ≢ st.server.next_sid
    → AnyInCm (heard_in run) × (st.upstream.init_complete ≡ true) × (st.upstream.cache.ready ≡ true)
client_session-after_init config rel st now bytes addr server effects run e new_id =
    let (w, told) = Run-IsSystem config rel st run in
    elim (Bool-cases (st.upstream.is_connected && st.upstream.cache.ready)) [
      | inl h ↦ (told (ground arith), w.upstream_ready.0 (ground arith), ground arith)
      | inr h ↦ absurd (new_id (keeps_count config now bytes addr server effects st e h))
    ]
