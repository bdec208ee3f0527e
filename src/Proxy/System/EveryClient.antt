-- ===== src/Proxy/System/EveryClient.antt =====
-- What every client of the proxy of proxy.rs comes to know of the switcher.
use atemproxy.Prelude.{◌≡◌, refl, subst, ◌∙◌, true, some, ◌++◌}
use atemproxy.Protocol.Reliable.{ReliableEndpoint}
use atemproxy.Proxy.Net.{SocketAddr, get}
use atemproxy.Proxy.Config.{Config}
use atemproxy.Proxy.Cache.{StateCache, empty}
use atemproxy.Proxy.Cache.Views.{SameView, ingest_all, ingest_all-effect}
use atemproxy.Proxy.Upstream.Hearing.{states, Unbroken}
use atemproxy.Proxy.Upstream.Following.{Step-Follows, begin_session-Follows}
use atemproxy.Proxy.Upstream.Runs
use atemproxy.Proxy.Server.{ClientSession}
use atemproxy.Proxy.System.{
  System, initial, Step, client_sent, timer, fanned_out, lagged, switcher_sent, commanded,
  switcher_ticked, session_ended, session_began, left_after,
}
use atemproxy.Proxy.System.Runs.{IsSystem, Step-IsSystem, initial-IsSystem}
use atemproxy.Proxy.System.Clients.{IsTold}
use atemproxy.Proxy.System.Knowing.{learns, IsInput, IsToldBy, IsServing}
use atemproxy.Proxy.System.Datagrams.{client_sent-IsServing, timer-IsServing}
use atemproxy.Proxy.System.Fanning.{fanned_out-IsServing, lagged-IsServing, switched-IsServing}

Step-IsServing :
    (config : Config) (addr : SocketAddr) (st st' : System) (step : Step config st st')
    (v : StateCache)
    → IsInput step
    → IsSystem st
    → IsServing addr st v
    → IsServing addr st' (learns addr step v)
Step-IsServing config addr _ _ (client_sent now bytes a server effects st e) v i y w =
    client_sent-IsServing config now bytes a addr server effects st v e y.sessions w
Step-IsServing config addr _ _ (timer now clock st) v i y w =
    timer-IsServing config now clock addr st v w
Step-IsServing config addr _ _ (fanned_out e unread st q) v i y w =
    fanned_out-IsServing config e unread addr st v q w
Step-IsServing config addr _ _ (lagged skipped unread st q) v i y w =
    lagged-IsServing skipped unread addr st v q i w
Step-IsServing config addr _ _ (switcher_sent now bytes st) v i y w =
    switched-IsServing addr st v _ st.commands
      (Step-Follows st.upstream _ (Runs.received now bytes st.upstream)) i w
Step-IsServing config addr _ _ (commanded now clock raw queued rest st q) v i y w =
    switched-IsServing addr st v _ (left_after raw queued rest)
      (Step-Follows st.upstream _ (Runs.commanded now clock raw queued st.upstream)) tt w
Step-IsServing config addr _ _ (switcher_ticked now clock upstream out st q) v i y w =
    switched-IsServing addr st v upstream st.commands
      (Step-Follows st.upstream upstream (Runs.ticked now clock st.upstream upstream out q)) tt w
Step-IsServing config addr _ _ (session_ended st) v i y w =
    switched-IsServing addr st v _ st.commands
      (Step-Follows st.upstream _ (Runs.failed st.upstream)) tt w
Step-IsServing config addr _ _ (session_began rel st q) v i y w =
    switched-IsServing {P = Unit {0}} addr st v _ st.commands
      (begin_session-Follows rel st.upstream) tt w

-- A run of the proxy, and what the client at `addr` knows after it.
pub data Heard (config : Config) (addr : SocketAddr) : System → StateCache → Type 0 where
  start : (rel : ReliableEndpoint) → Heard config addr (initial rel) empty
  then_ :
      (st st' : System) (v : StateCache)
      → Heard config addr st v
      → (step : Step config st st') → IsInput step
      → Heard config addr st' (learns addr step v)

initial-IsServing :
    (addr : SocketAddr) (rel : ReliableEndpoint) → IsServing addr (initial rel) empty
unfolding get
initial-IsServing addr rel = record {
  keyed = tt;
  whole = (tt, tt);
  hints = tt;
  settled = tt;
  offline = λ d u. refl;
  told = tt;
}

pub Heard-IsServing :
    (config : Config) (addr : SocketAddr) (st : System) (v : StateCache)
    → Heard config addr st v
    → IsSystem st × IsServing addr st v
Heard-IsServing config addr _ _ (start rel) = (initial-IsSystem rel, initial-IsServing addr rel)
Heard-IsServing config addr _ _ (then_ st st' v h step i) =
    let (y, w) = Heard-IsServing config addr st v h in
    (Step-IsSystem config st st' step y, Step-IsServing config addr st st' step v i y w)

-- From the start of the proxy on, whatever arrives on either side and in whatever order its tasks
-- take turns: a client with an open session that has ingested every payload sent to it since the
-- session began, once and in order, comes to know what the cache knows by the payloads still queued
-- for it and the state payloads of the events that wait to be fanned out: under every key the client
-- and the cache then hold the same command, or none. The switcher's datagrams are bytes, a task that
-- lags behind skips no end of a session with the switcher, and none is among the events that wait.
pub Heard-SameView :
    (config : Config) (addr : SocketAddr) (st : System) (v : StateCache) (s : ClientSession)
    → Heard config addr st v
    → get addr st.server.sessions ≡ some s
    → s.opened ≡ true
    → Unbroken st.unread
    → SameView (ingest_all (s.rel.outbound ++ states st.unread) v) st.upstream.cache
Heard-SameView config addr st v s h e o u k =
    let w = (Heard-IsServing config addr st v h).1 in
    let told : IsTold s v st.unread st.upstream.cache =
      subst (λ x. IsToldBy x v st.unread st.upstream.cache) e w.told in
    ingest_all-effect k (s.rel.outbound ++ states st.unread) v ∙ told.known o u k
