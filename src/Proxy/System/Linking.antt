-- ===== src/Proxy/System/Linking.antt =====
-- Every step of the proxy of proxy.rs keeps the link with a client.
use atemproxy.Prelude.{◌≡◌, refl, sym, subst, inl, inr, Bool-cases, ℕ, Option, List, ◌==◌, ==_iff}
use atemproxy.Protocol.Error.{ok, bind-eq-ok}
use atemproxy.Protocol.Packet.{decode_packet}
use atemproxy.Protocol.Packet.Decoding.{encode_packet-decode_packet}
use atemproxy.Protocol.Reliable.{Millis}
use atemproxy.Protocol.Link.{Link, poll}
use atemproxy.Proxy.Net.{SocketAddr, get}
use atemproxy.Proxy.Config.{Config}
use atemproxy.Proxy.Cache.{StateCache}
use atemproxy.Proxy.Cache.Views.{ingest_all}
use atemproxy.Proxy.Server.{
  ClientSession, Server, Effect, handle_datagram, on_tick, poll_sessions, idle_limit,
}
use atemproxy.Proxy.Server.Keyed.{poll_sessions-Polled}
use atemproxy.Proxy.System.{
  System, on_client, on_timer, Step, client_sent, timer, fanned_out, lagged, switcher_sent,
  commanded, switcher_ticked, session_ended, session_began,
}
use atemproxy.Proxy.System.Runs.{IsSystem}
use atemproxy.Proxy.System.Clients.{IsTold}
use atemproxy.Proxy.System.Knowing.{known_by, learns, sent_to, IsToldBy, IsServing}
use atemproxy.Proxy.System.Elsewhere.{on_client-other}
use atemproxy.Proxy.System.Joining.{IsJoined, polled-IsJoined}
use atemproxy.Proxy.System.EndToEnd.{
  Joined, Moves-same, Moves-Joined, IsFair, link_after, resumed_by,
}
use atemproxy.Proxy.System.Delivered.{fanned_out-Moves, lagged-Moves, packet-session, packet-Joined}

client_sent-Joined :
    (config : Config) (now : Millis) (bytes : List ℕ) (a addr : SocketAddr) (server : Server)
    (effects : List Effect) (st : System) (v : StateCache) (link : Link)
    → (e : on_client config now bytes a st ≡ ok (server, effects))
    → (let step : Step config st _ = client_sent now bytes a server effects st e in
        IsFair addr link step)
    → IsSystem st
    → IsServing addr st v
    → Joined (get addr st.server.sessions) v link
    → Joined
        (get addr server.sessions)
        (known_by (get addr server.sessions) v)
        (resumed_by (get addr server.sessions) link)
unfolding handle_datagram
client_sent-Joined config now bytes a addr server effects st v link e f y w j =
    elim (Bool-cases (a == addr)) [
      | inr k ↦
          Moves-Joined _ _ v st.unread st.upstream.cache link
            (Moves-same _ _ (on_client-other config now bytes a addr server effects st e k)) w.told
            j
      | inl k ↦
          let p : a ≡ addr = (==_iff a addr).0 k in
          let (are_bytes, fair) = f p in
          let ((hdr, payload), d, _) = bind-eq-ok (decode_packet bytes) _ e in
          let (no_hello, honest) = fair hdr payload d in
          packet-Joined config now bytes addr server effects st hdr payload v link
            (packet-session config now bytes addr server effects st hdr payload
              (subst (λ b. on_client config now bytes b st ≡ ok (server, effects)) p e) d no_hello)
            d ((encode_packet-decode_packet bytes hdr payload are_bytes d).0.packet_fits) honest
            y.sessions w.told j
    ]

timer-Joined :
    (config : Config) (now clock : Millis) (addr : SocketAddr) (st : System) (v : StateCache)
    (link : Link)
    → IsServing addr st v
    → Joined (get addr st.server.sessions) v link
    → let o = get addr st.server.sessions in
      let o' = get addr (on_timer config now clock st).0.sessions in
      Joined o' (known_by o' (ingest_all (sent_to o now clock) v)) (poll now clock link)
unfolding on_tick
timer-Joined config now clock addr st v link w j =
    let m = st.server.sessions in
    let m' = (poll_sessions (idle_limit config.client_idle_ms) now clock m).0 in
    elim (poll_sessions-Polled (idle_limit config.client_idle_ms) now clock addr m w.keyed) [
      | inl n ↦
          subst
            (λ o.
              Joined o (known_by o (ingest_all (sent_to (get addr m) now clock) v))
                (poll now clock link))
            (sym n) tt
      | inr (s, e, e') ↦
          let told : IsTold s v st.unread st.upstream.cache =
            subst (λ o. IsToldBy o v st.unread st.upstream.cache) e w.told in
          let joined : IsJoined s v link = subst (λ o. Joined o v link) e j in
          subst
            (λ (r : Option ClientSession × Option ClientSession).
              Joined r.1 (known_by r.1 (ingest_all (sent_to r.0 now clock) v))
                (poll now clock link))
            (λ i. (sym e i, sym e' i))
            (polled-IsJoined now clock s v st.unread st.upstream.cache link told joined)
    ]

pub Step-Joined :
    (config : Config) (addr : SocketAddr) (st st' : System) (step : Step config st st')
    (v : StateCache) (link : Link)
    → IsFair addr link step
    → IsSystem st
    → IsServing addr st v
    → Joined (get addr st.server.sessions) v link
    → Joined (get addr st'.server.sessions) (learns addr step v) (link_after addr step link)
Step-Joined config addr _ _ (client_sent now bytes a server effects st e) v link f y w j =
    client_sent-Joined config now bytes a addr server effects st v link e f y w j
Step-Joined config addr _ _ (timer now clock st) v link f y w j =
    timer-Joined config now clock addr st v link w j
Step-Joined config addr _ _ (fanned_out e unread st q) v link f y w j =
    Moves-Joined _ _ v st.unread st.upstream.cache link (fanned_out-Moves config e addr st) w.told j
Step-Joined config addr _ _ (lagged skipped unread st q) v link f y w j =
    Moves-Joined _ _ v st.unread st.upstream.cache link (lagged-Moves addr st) w.told j
Step-Joined config addr _ _ (switcher_sent now bytes st) v link f y w j =
    Moves-Joined _ _ v st.unread st.upstream.cache link (Moves-same _ _ refl) w.told j
Step-Joined config addr _ _ (commanded now clock raw queued rest st q) v link f y w j =
    Moves-Joined _ _ v st.unread st.upstream.cache link (Moves-same _ _ refl) w.told j
Step-Joined config addr _ _ (switcher_ticked now clock upstream out st q) v link f y w j =
    Moves-Joined _ _ v st.unread st.upstream.cache link (Moves-same _ _ refl) w.told j
Step-Joined config addr _ _ (session_ended st) v link f y w j =
    Moves-Joined _ _ v st.unread st.upstream.cache link (Moves-same _ _ refl) w.told j
Step-Joined config addr _ _ (session_began rel st q) v link f y w j =
    Moves-Joined _ _ v st.unread st.upstream.cache link (Moves-same _ _ refl) w.told j
