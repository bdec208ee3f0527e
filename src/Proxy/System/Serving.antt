-- ===== src/Proxy/System/Serving.antt =====
-- What a datagram does to one client's session, in the proxy of proxy.rs.
use atemproxy.Prelude.{
  ◌≡◌, refl, subst, ◌∙◌, inl, inr, arith, Bool-cases, Option-cases, ℕ, true, false, ◌&&◌, some,
  Option, List, ◌==◌, ==_iff, Bool,
}
use atemproxy.Protocol.Error.{ok, ok-injective, bind-eq-ok}
use atemproxy.Protocol.Packet.{PacketHeader, decode_packet}
use atemproxy.Protocol.Session.{is_handshake_packet, server_session_id}
use atemproxy.Protocol.Reliable.{Millis}
use atemproxy.Proxy.Net.{SocketAddr, get, put, get-put}
use atemproxy.Proxy.Config.{Config}
use atemproxy.Proxy.Cache.{StateCache, dump}
use atemproxy.Proxy.Filter.{FilterPolicy}
use atemproxy.Proxy.Server.{
  ClientSession, Server, Effect, new_session, on_packet, on_session, on_hello, handle_datagram,
}
use atemproxy.Proxy.Server.Keyed.{IsKeyed, put-IsKeyed}
use atemproxy.Proxy.Server.Queues.{Queued, on_packet-Queued}
use atemproxy.Proxy.Server.Sessions.{AllSessions, get-IsSession}
use atemproxy.Proxy.System.{System, policy_of, with_locks, on_client}

-- What a datagram does to the session of the client at `addr`.
pub data Served (cache : StateCache) (is_connected : Bool) (o o' : Option ClientSession)
    : Type 0 where
  unchanged : o' ≡ o → Served cache is_connected o o'
  welcomed :
      (id : ℕ) (now : Millis)
      → o' ≡ some (new_session id now)
      → is_connected ≡ true
      → Served cache is_connected o o'
  heard :
      (s s' : ClientSession)
      → o ≡ some s
      → o' ≡ some s'
      → Queued (dump cache) s s'
      → Served cache is_connected o o'

pub put-get-other :
    (a addr : SocketAddr) (s : ClientSession) (m : List (SocketAddr × ClientSession))
    → (a == addr) ≡ false
    → get addr (put a s m) ≡ get addr m
put-get-other a addr s m e = get-put addr a s m ∙ rw e refl

put-get-same :
    (a addr : SocketAddr) (s : ClientSession) (m : List (SocketAddr × ClientSession))
    → (a == addr) ≡ true
    → get addr (put a s m) ≡ some s
put-get-same a addr s m e = get-put addr a s m ∙ rw e refl

on_hello-Served :
    (is_connected : Bool) (cache : StateCache) (now : Millis) (a addr : SocketAddr) (st : Server)
    → IsKeyed st.sessions
    → let st' = (on_hello is_connected cache now a st).0 in
      Served cache is_connected (get addr st.sessions) (get addr st'.sessions)
      × IsKeyed st'.sessions
unfolding on_hello
on_hello-Served is_connected cache now a addr st h =
    elim (Bool-cases (is_connected && cache.ready)) [
      | inr e ↦ rw e (unchanged refl, h)
      | inl e ↦
          let s = new_session (server_session_id st.next_sid) now in
          rw e (
            elim (Bool-cases (a == addr)) [
              | inl k ↦
                  welcomed (server_session_id st.next_sid) now (put-get-same a addr s st.sessions k)
                    (ground arith)
              | inr k ↦ unchanged (put-get-other a addr s st.sessions k)
            ],
            put-IsKeyed a s st.sessions h,
          )
    ]

on_session-Served :
    (policy : FilterPolicy) (is_connected : Bool) (cache : StateCache) (a : SocketAddr)
    (now : Millis) (hdr : PacketHeader) (payload : List ℕ) (addr : SocketAddr) (st : Server)
    → AllSessions st.sessions
    → IsKeyed st.sessions
    → let st' = (on_session policy cache a now hdr payload st).0 in
      Served cache is_connected (get addr st.sessions) (get addr st'.sessions)
      × IsKeyed st'.sessions
on_session-Served policy is_connected cache a now hdr payload addr st w h =
    elim (Option-cases (get a st.sessions)) [
      | inl e ↦ rw (e, on_session) (unchanged refl, h)
      | inr (s, e) ↦
          let s' = (on_packet policy cache a now hdr payload s st.filter).0 in
          let q =
            on_packet-Queued policy cache a now hdr payload s st.filter
              ((get-IsSession a s st.sessions e w).dumped) in
          rw (e, on_session)
            (
              elim (Bool-cases (a == addr)) [
                | inl k ↦
                    heard s s' (subst (λ b. get b st.sessions ≡ some s) ((==_iff a addr).0 k) e)
                      (put-get-same a addr s' st.sessions k) q
                | inr k ↦ unchanged (put-get-other a addr s' st.sessions k)
              ],
              put-IsKeyed a s' st.sessions h,
            )
    ]

pub on_client-Served :
    (config : Config) (now : Millis) (bytes : List ℕ) (a addr : SocketAddr) (server : Server)
    (effects : List Effect) (st : System)
    → on_client config now bytes a st ≡ ok (server, effects)
    → AllSessions st.server.sessions
    → IsKeyed st.server.sessions
    → Served st.upstream.cache st.upstream.is_connected
        (get addr st.server.sessions)
        (get addr server.sessions)
      × IsKeyed server.sessions
unfolding handle_datagram
on_client-Served config now bytes a addr server effects st e w h =
    let ((hdr, payload), d, r) = bind-eq-ok (decode_packet bytes) _ e in
    subst
      (λ (q : Server × List Effect).
        Served st.upstream.cache st.upstream.is_connected (get addr st.server.sessions)
          (get addr q.0.sessions)
        × IsKeyed q.0.sessions)
      (ok-injective r)
      (elim (Bool-cases (is_handshake_packet hdr.flags)) [
        | inl k ↦ rw k (
            on_hello-Served st.upstream.is_connected st.upstream.cache now a addr (with_locks st) h)
        | inr k ↦ rw k (
            on_session-Served (policy_of config) st.upstream.is_connected st.upstream.cache a now
              hdr payload addr (with_locks st) w h)
      ])
