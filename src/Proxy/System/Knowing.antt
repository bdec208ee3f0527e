-- ===== src/Proxy/System/Knowing.antt =====
-- What one client of the proxy of proxy.rs knows, and what the proxy keeps for it.
use atemproxy.Prelude.{◌≡◌, ℕ, false, none, some, Option, List, [], All}
use atemproxy.Prelude.Bytes.{AreBytes}
use atemproxy.Protocol.Reliable.{Millis}
use atemproxy.Protocol.Link.{launched}
use atemproxy.Proxy.Net.{SocketAddr, get}
use atemproxy.Proxy.Config.{Config}
use atemproxy.Proxy.Cache.{StateCache, empty}
use atemproxy.Proxy.Cache.Dump.{IsState}
use atemproxy.Proxy.Cache.Views.{ingest_all}
use atemproxy.Proxy.Upstream.{UpstreamEvent}
use atemproxy.Proxy.Upstream.Hearing.{Unbroken, IsHint, Settled}
use atemproxy.Proxy.Server.{ClientSession}
use atemproxy.Proxy.Server.Keyed.{IsKeyed}
use atemproxy.Proxy.System.{
  System, Step, client_sent, timer, fanned_out, lagged, switcher_sent, commanded, switcher_ticked,
  session_ended, session_began,
}
use atemproxy.Proxy.System.Clients.{IsTold, kept, IsTold-kept}

-- What a client with this session may know: nothing before it is open.
abbrev pub known_by : Option ClientSession → StateCache → StateCache
known_by none v = empty
known_by (some s) v = kept s v

-- What a pass of the timer sends to the client for the first time.
abbrev pub sent_to : Option ClientSession → Millis → Millis → List (List ℕ)
sent_to none now clock = []
sent_to (some s) now clock = launched now clock s.rel

-- What the client at `addr` knows after a step, if it knew `v`: it ingests every payload that is
-- sent to it, once and in order.
abbrev pub learns :
    {config : Config} {st st' : System} → SocketAddr → Step config st st' → StateCache → StateCache
learns {st' = st'} addr (timer now clock st) v =
    known_by (get addr st'.server.sessions)
      (ingest_all (sent_to (get addr st.server.sessions) now clock) v)
learns {st' = st'} addr _ v = known_by (get addr st'.server.sessions) v

-- What the steps are given: bytes from the switcher, and no end of a session among the events that
-- a task which lags behind does not get to see.
abbrev pub IsInput : {config : Config} {st st' : System} → Step config st st' → Type 0
IsInput (client_sent now bytes a server effects st e) = Unit
IsInput (timer now clock st) = Unit
IsInput (fanned_out e unread st q) = Unit
IsInput (lagged skipped unread st q) = Unbroken skipped
IsInput (switcher_sent now bytes st) = AreBytes bytes
IsInput (commanded now clock raw queued rest st q) = Unit
IsInput (switcher_ticked now clock upstream out st q) = Unit
IsInput (session_ended st) = Unit
IsInput (session_began rel st q) = Unit

abbrev pub IsToldBy : Option ClientSession → StateCache → List UpstreamEvent → StateCache → Type 0
IsToldBy none v unread cache = Unit
IsToldBy (some s) v unread cache = IsTold s v unread cache

-- The proxy, and the client at `addr`, which knows `v`.
pub record IsServing (addr : SocketAddr) (st : System) (v : StateCache) : Type 0 where
  pub keyed : IsKeyed st.server.sessions
  pub whole : IsState st.upstream.cache.entries
  pub hints : All IsHint st.unread
  pub settled : Settled st.unread st.upstream.cache
  pub offline :
      st.upstream.is_connected ≡ false → Unbroken st.unread → get addr st.server.sessions ≡ none
  pub told : IsToldBy (get addr st.server.sessions) v st.unread st.upstream.cache

pub known_by-IsToldBy :
    (o : Option ClientSession) (v : StateCache) (unread : List UpstreamEvent) (cache : StateCache)
    → IsToldBy o v unread cache
    → IsToldBy o (known_by o v) unread cache
known_by-IsToldBy none v unread cache h = tt
known_by-IsToldBy (some s) v unread cache h = IsTold-kept s v unread cache h
