-- ===== src/Proxy/Server/Passes.antt =====
-- The clients' sessions under datagrams, events and ticks, in server.rs.
use atemproxy.Prelude.{
  ℕ, refl, Bool, true, false, Option, none, some, List, [], ◌∷◌, ◌-◌, ltb, Bool-cases, Option-cases,
  inl, inr, if◌then◌else◌, ◌&&◌,
}
use atemproxy.Protocol.Packet.{PacketHeader}
use atemproxy.Protocol.Session.{is_handshake_packet}
use atemproxy.Protocol.Reliable.{Millis, queue_commands_packed}
use atemproxy.Protocol.Outbound.{poll_outbound}
use atemproxy.Protocol.Outbound.Sound.{
  untouched-IsSound, poll_outbound-IsSound, poll_outbound-opened,
}
use atemproxy.Proxy.Net.{SocketAddr, get}
use atemproxy.Proxy.Cache.{StateCache, dump}
use atemproxy.Proxy.Transfer.{fanout_owner}
use atemproxy.Proxy.Filter.{FilterPolicy}
use atemproxy.Proxy.Upstream.{UpstreamEvent}
use atemproxy.Proxy.Server.{
  ClientSession, Server, on_hello, on_session, with_rel, queue_if, to_owner, on_event, on_lagged,
  poll_sessions, on_tick, idle_limit,
}
use atemproxy.Proxy.Server.Sessions.{
  IsSession, AllSessions, put-AllSessions, get-IsSession, on_session-AllSessions,
  on_hello-AllSessions, each-AllSessions, queue_if-IsSession, rel-IsSession,
}

pub handle_datagram-AllSessions :
    (policy : FilterPolicy) (is_connected : Bool) (cache : StateCache) (now : Millis)
    (hdr : PacketHeader) (payload : List ℕ) (addr : SocketAddr) (st : Server)
    → AllSessions st.sessions
    → AllSessions
        (if is_handshake_packet hdr.flags
          then on_hello is_connected cache now addr st
          else on_session policy cache addr now hdr payload st).0.sessions
handle_datagram-AllSessions policy is_connected cache now hdr payload addr st h =
    elim (Bool-cases (is_handshake_packet hdr.flags)) [
      | inl e ↦ rw e (on_hello-AllSessions is_connected cache now addr st h)
      | inr e ↦ rw e (on_session-AllSessions policy cache addr now hdr payload st h)
    ]

to_owner-AllSessions :
    (owner : Option SocketAddr) (payload : List ℕ) (st : Server)
    → AllSessions st.sessions
    → AllSessions (to_owner owner payload st).sessions
to_owner-AllSessions none payload st h = h
to_owner-AllSessions (some owner) payload st h = elim (Option-cases (get owner st.sessions)) [
  | inl e ↦ rw (e, to_owner) h
  | inr (s, e) ↦
      rw (e, to_owner)
        (put-AllSessions owner (queue_if s.opened payload s) st.sessions
          (queue_if-IsSession s.opened payload s (get-IsSession owner s st.sessions e h)) h)
]

pub on_event-AllSessions :
    (policy : FilterPolicy) (e : UpstreamEvent) (st : Server)
    → AllSessions st.sessions
    → AllSessions (on_event policy e st).sessions
unfolding on_event
on_event-AllSessions policy UpstreamEvent.connected st h = h
on_event-AllSessions policy UpstreamEvent.disconnected st h = tt
on_event-AllSessions policy (UpstreamEvent.state_payload payload) st h =
    each-AllSessions (λ s. queue_if s.opened payload s) st.sessions
      (λ s. queue_if-IsSession s.opened payload s) h
on_event-AllSessions policy (UpstreamEvent.audio_levels payload) st h =
    each-AllSessions (λ s. queue_if (s.opened && s.audio) payload s) st.sessions
      (λ s. queue_if-IsSession (s.opened && s.audio) payload s) h
on_event-AllSessions policy (UpstreamEvent.transfer_payload payload) st h =
    to_owner-AllSessions (fanout_owner policy.media st.filter.locks st.filter.lane) payload st h

if-IsSession :
    (b : Bool) (s t : ClientSession) → IsSession s → IsSession t → IsSession (if b then s else t)
if-IsSession true s t h k = h
if-IsSession false s t h k = k

resync-IsSession :
    (commands : List (List ℕ)) (s : ClientSession)
    → IsSession s
    → IsSession (if s.opened then with_rel (queue_commands_packed commands s.rel) s else s)
unfolding queue_commands_packed
resync-IsSession commands s h =
    if-IsSession s.opened _ s
      (rel-IsSession (queue_commands_packed commands s.rel) s
        (untouched-IsSound s.rel _ refl refl refl h.sound) refl h)
      h

pub on_lagged-AllSessions :
    (cache : StateCache) (st : Server)
    → AllSessions st.sessions
    → AllSessions (on_lagged cache st).sessions
unfolding on_lagged
on_lagged-AllSessions cache st h =
    each-AllSessions
      (λ s. if s.opened then with_rel (queue_commands_packed (dump cache) s.rel) s else s)
      st.sessions (resync-IsSession (dump cache)) h

poll_sessions-AllSessions :
    (idle : ℕ) (now clock : Millis) (m : List (SocketAddr × ClientSession))
    → AllSessions m
    → AllSessions (poll_sessions idle now clock m).0
unfolding poll_sessions
poll_sessions-AllSessions idle now clock [] h = tt
poll_sessions-AllSessions idle now clock ((addr, s) ∷ m) h =
    let rest = poll_sessions-AllSessions idle now clock m h.1 in
    elim (Bool-cases (ltb idle (now - s.rel.last_recv_at))) [
      | inl e ↦ rw e rest
      | inr e ↦ rw e (
        rel-IsSession (poll_outbound now clock s.rel).0 s
            (poll_outbound-IsSound now clock s.rel h.0.sound) (poll_outbound-opened now clock s.rel)
            h.0,
        rest,
      )
    ]

pub on_tick-AllSessions :
    (client_idle_ms : ℕ) (now clock : Millis) (st : Server)
    → AllSessions st.sessions
    → AllSessions (on_tick client_idle_ms now clock st).0.sessions
unfolding on_tick
on_tick-AllSessions client_idle_ms now clock st h =
    poll_sessions-AllSessions (idle_limit client_idle_ms) now clock st.sessions h
