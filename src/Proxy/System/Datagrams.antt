-- ===== src/Proxy/System/Datagrams.antt =====
-- A client's datagrams and the timer keep what a client of the proxy is told right.
use atemproxy.Prelude.{◌≡◌, sym, subst, ◌∙◌, inl, inr, ℕ, false, none, Option, List, Bool}
use atemproxy.Protocol.Error.{ok}
use atemproxy.Protocol.Reliable.{Millis}
use atemproxy.Proxy.Net.{SocketAddr, get}
use atemproxy.Proxy.Config.{Config}
use atemproxy.Proxy.Cache.{StateCache}
use atemproxy.Proxy.Cache.Dump.{IsState}
use atemproxy.Proxy.Cache.Views.{ingest_all}
use atemproxy.Proxy.Upstream.{UpstreamEvent}
use atemproxy.Proxy.Upstream.Hearing.{Settled}
use atemproxy.Proxy.Server.{ClientSession, Server, Effect, on_tick, poll_sessions, idle_limit}
use atemproxy.Proxy.Server.Keyed.{poll_sessions-IsKeyed, poll_sessions-Polled}
use atemproxy.Proxy.Server.Sessions.{AllSessions}
use atemproxy.Proxy.System.{System, served, on_client, on_timer, Step, timer}
use atemproxy.Proxy.System.Serving.{Served, unchanged, welcomed, heard, on_client-Served}
use atemproxy.Proxy.System.Clients.{IsTold, IsTold-kept, Queued-IsTold, new_session-IsTold}
use atemproxy.Proxy.System.Telling.{polled-IsTold}
use atemproxy.Proxy.System.Knowing.{
  known_by, sent_to, learns, IsToldBy, IsServing, known_by-IsToldBy,
}

Served-IsToldBy :
    (o o' : Option ClientSession) (v : StateCache) (unread : List UpstreamEvent)
    (cache : StateCache) (is_connected : Bool)
    → Served cache is_connected o o'
    → IsState cache.entries
    → Settled unread cache
    → IsToldBy o v unread cache
    → IsToldBy o' (known_by o' v) unread cache
Served-IsToldBy o o' v unread cache c (unchanged e) w r h =
    known_by-IsToldBy o' v unread cache (subst (λ x. IsToldBy x v unread cache) (sym e) h)
Served-IsToldBy o o' v unread cache c (welcomed id now e _) w r h =
    subst (λ x. IsToldBy x (known_by x v) unread cache) (sym e)
      (new_session-IsTold id now unread cache)
Served-IsToldBy o o' v unread cache c (heard s s' e e' q) w r h =
    subst (λ x. IsToldBy x (known_by x v) unread cache) (sym e')
      (IsTold-kept s' v unread cache
        (Queued-IsTold s s' v unread cache q w r (subst (λ x. IsToldBy x v unread cache) e h)))

Served-offline :
    (o o' : Option ClientSession) (cache : StateCache) (is_connected : Bool)
    → Served cache is_connected o o'
    → is_connected ≡ false
    → o ≡ none
    → o' ≡ none
Served-offline o o' cache c (unchanged e) d n = e ∙ n
Served-offline o o' cache c (welcomed id now e t) d n = absurd (cc)
Served-offline o o' cache c (heard s s' e e' q) d n = absurd (cc)

pub client_sent-IsServing :
    (config : Config) (now : Millis) (bytes : List ℕ) (a addr : SocketAddr) (server : Server)
    (effects : List Effect) (st : System) (v : StateCache)
    → on_client config now bytes a st ≡ ok (server, effects)
    → AllSessions st.server.sessions
    → IsServing addr st v
    → IsServing addr (served server effects st) (known_by (get addr server.sessions) v)
client_sent-IsServing config now bytes a addr server effects st v e all w =
    let (q, keyed) = on_client-Served config now bytes a addr server effects st e all w.keyed in
    record {
      keyed = keyed;
      whole = w.whole;
      hints = w.hints;
      settled = w.settled;
      offline = λ d u. Served-offline _ _ st.upstream.cache _ q d (w.offline d u);
      told =
          Served-IsToldBy (get addr st.server.sessions) (get addr server.sessions) v st.unread
            st.upstream.cache st.upstream.is_connected q w.whole w.settled w.told;
    }

pub timer-IsServing :
    (config : Config) (now clock : Millis) (addr : SocketAddr) (st : System) (v : StateCache)
    → IsServing addr st v
    → let step : Step config st _ = timer now clock st in
      IsServing addr
        (served (on_timer config now clock st).0 (on_timer config now clock st).1 st)
        (learns addr step v)
unfolding on_tick
timer-IsServing config now clock addr st v w =
    let idle = idle_limit config.client_idle_ms in
    let m = st.server.sessions in
    let m' = (poll_sessions idle now clock m).0 in
    record {
      keyed = poll_sessions-IsKeyed idle now clock m w.keyed;
      whole = w.whole;
      hints = w.hints;
      settled = w.settled;
      offline = λ d u. elim (poll_sessions-Polled idle now clock addr m w.keyed) [
        | inl n ↦ n
        | inr (s, e, _) ↦ let gone = w.offline d u in absurd (cc)
      ];
      told = elim (poll_sessions-Polled idle now clock addr m w.keyed) [
        | inl n ↦
            subst
              (λ o.
                IsToldBy o
                  (known_by o (ingest_all (sent_to (get addr st.server.sessions) now clock) v))
                  st.unread st.upstream.cache)
              (sym n) tt
        | inr (s, e, e') ↦
            let told : IsTold s v st.unread st.upstream.cache =
              subst (λ o. IsToldBy o v st.unread st.upstream.cache) e w.told in
            subst
              (λ (r : Option ClientSession × Option ClientSession).
                IsToldBy r.1 (known_by r.1 (ingest_all (sent_to r.0 now clock) v)) st.unread
                  st.upstream.cache)
              (λ i. (sym e i, sym e' i))
              (polled-IsTold now clock s v st.unread st.upstream.cache told)
      ];
    }
