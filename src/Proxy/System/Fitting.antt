-- ===== src/Proxy/System/Fitting.antt =====
-- No payload that the proxy of proxy.rs sends to a client is cut.
use atemproxy.Prelude.{
  ◌≡◌, refl, sym, subst, List, [], ◌∷◌, ◌++◌, All, All-append, All-drop, length,
}
use atemproxy.Proxy.Net.{SocketAddr}
use atemproxy.Proxy.Config.{Config}
use atemproxy.Proxy.Cache.{StateCache}
use atemproxy.Proxy.Upstream.{Upstream, UpstreamEvent}
use atemproxy.Proxy.Upstream.Lengths.{ShortEntries}
use atemproxy.Proxy.Upstream.Fitting.{ShortEvent, IsShort, Step-IsShort, begin_session-IsShort}
use atemproxy.Proxy.Upstream.Runs
use atemproxy.Proxy.System.{
  System, switched, Step, client_sent, timer, fanned_out, lagged, switcher_sent, commanded,
  switcher_ticked, session_ended, session_began,
}
use atemproxy.Proxy.System.Knowing.{IsInput}
use atemproxy.Proxy.System.EveryClient.{Heard}
use atemproxy.Proxy.System.EveryClient

-- The cache and the events.
abbrev pub Fits : System → Type 0
Fits st = IsShort st.upstream × All ShortEvent st.unread

switched-Fits :
    (upstream : Upstream) (st : System) → IsShort upstream → Fits st → Fits (switched upstream st)
switched-Fits upstream st h w = (
  h,
  All-append ShortEvent st.unread _ w.1
      (All-drop ShortEvent (length st.upstream.events) upstream.events h.events),
)

All-back : (xs ys : List UpstreamEvent) → All ShortEvent (xs ++ ys) → All ShortEvent ys
All-back [] ys h = h
All-back (x ∷ xs) ys h = All-back xs ys h.1

unlocked :
    (st : System) (u : Upstream)
    → u.cache ≡ st.upstream.cache
    → u.events ≡ st.upstream.events
    → IsShort st.upstream
    → IsShort u
unlocked st u c e h = record {
  entries = subst (λ (d : StateCache). ShortEntries d.entries) (sym c) h.entries;
  events = subst (All ShortEvent) (sym e) h.events;
}

Step-Fits :
    (config : Config) (st st' : System) (step : Step config st st')
    → IsInput step
    → Fits st
    → Fits st'
Step-Fits config _ _ (client_sent now bytes a server effects st e) i w =
    (unlocked st _ refl refl w.0, w.1)
Step-Fits config _ _ (timer now clock st) i w = (unlocked st _ refl refl w.0, w.1)
Step-Fits config _ _ (fanned_out e unread st q) i w =
    (unlocked st _ refl refl w.0, (subst (All ShortEvent) q w.1).1)
Step-Fits config _ _ (lagged skipped unread st q) i w =
    (unlocked st _ refl refl w.0, All-back skipped unread (subst (All ShortEvent) q w.1))
Step-Fits config _ _ (switcher_sent now bytes st) i w =
    switched-Fits _ st (Step-IsShort st.upstream _ (Runs.received now bytes st.upstream) i w.0) w
Step-Fits config _ _ (commanded now clock raw queued rest st q) i w =
    switched-Fits _ st
      (Step-IsShort st.upstream _ (Runs.commanded now clock raw queued st.upstream) tt w.0) w
Step-Fits config _ _ (switcher_ticked now clock upstream out st q) i w =
    switched-Fits upstream st
      (Step-IsShort st.upstream upstream (Runs.ticked now clock st.upstream upstream out q) tt w.0)
      w
Step-Fits config _ _ (session_ended st) i w =
    switched-Fits _ st (Step-IsShort st.upstream _ (Runs.failed st.upstream) tt w.0) w
Step-Fits config _ _ (session_began rel st q) i w =
    switched-Fits _ st (begin_session-IsShort rel st.upstream w.0) w

pub Heard-Fits :
    (config : Config) (addr : SocketAddr) (st : System) (v : StateCache)
    → Heard config addr st v
    → Fits st
Heard-Fits config addr _ _ (EveryClient.start rel) = (record { entries = tt; events = tt }, tt)
Heard-Fits config addr _ _ (EveryClient.then_ st st' v h step i) =
    Step-Fits config st st' step i (Heard-Fits config addr st v h)
