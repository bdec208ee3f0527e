-- ===== src/Proxy/System/Elsewhere.antt =====
-- A datagram leaves the sessions of the other clients, in the proxy of proxy.rs.
use atemproxy.Prelude.{
  ◌≡◌, refl, inl, inr, Bool-cases, Option-cases, ℕ, Bool, false, ◌&&◌, List, ◌==◌, subst,
}
use atemproxy.Protocol.Error.{ok, ok-injective, bind-eq-ok}
use atemproxy.Protocol.Packet.{PacketHeader, decode_packet}
use atemproxy.Protocol.Session.{is_handshake_packet, server_session_id}
use atemproxy.Protocol.Reliable.{Millis}
use atemproxy.Proxy.Net.{SocketAddr, get}
use atemproxy.Proxy.Config.{Config}
use atemproxy.Proxy.Cache.{StateCache}
use atemproxy.Proxy.Filter.{FilterPolicy}
use atemproxy.Proxy.Server.{
  Server, Effect, new_session, on_packet, on_session, on_hello, handle_datagram,
}
use atemproxy.Proxy.System.{System, policy_of, with_locks, on_client}
use atemproxy.Proxy.System.Serving.{put-get-other}

on_hello-other :
    (is_connected : Bool) (cache : StateCache) (now : Millis) (a addr : SocketAddr) (st : Server)
    → (a == addr) ≡ false
    → get addr ((on_hello is_connected cache now a st).0.sessions) ≡ get addr st.sessions
unfolding on_hello
on_hello-other is_connected cache now a addr st k =
    elim (Bool-cases (is_connected && cache.ready)) [
      | inr e ↦ rw e refl
      | inl e ↦
          rw e
            (put-get-other a addr (new_session (server_session_id st.next_sid) now) st.sessions k)
    ]

on_session-other :
    (policy : FilterPolicy) (cache : StateCache) (a : SocketAddr) (now : Millis)
    (hdr : PacketHeader) (payload : List ℕ) (addr : SocketAddr) (st : Server)
    → (a == addr) ≡ false
    → get addr ((on_session policy cache a now hdr payload st).0.sessions) ≡ get addr st.sessions
on_session-other policy cache a now hdr payload addr st k =
    elim (Option-cases (get a st.sessions)) [
      | inl e ↦ rw (e, on_session) refl
      | inr (s, e) ↦
          let s' = (on_packet policy cache a now hdr payload s st.filter).0 in
          rw (e, on_session) (put-get-other a addr s' st.sessions k)
    ]

pub on_client-other :
    (config : Config) (now : Millis) (bytes : List ℕ) (a addr : SocketAddr) (server : Server)
    (effects : List Effect) (st : System)
    → on_client config now bytes a st ≡ ok (server, effects)
    → (a == addr) ≡ false
    → get addr server.sessions ≡ get addr st.server.sessions
unfolding handle_datagram
on_client-other config now bytes a addr server effects st e o =
    let ((hdr, payload), d, r) = bind-eq-ok (decode_packet bytes) _ e in
    subst (λ (q : Server × List Effect). get addr q.0.sessions ≡ get addr st.server.sessions)
      (ok-injective r)
      (elim (Bool-cases (is_handshake_packet hdr.flags)) [
        | inl k ↦
            rw k (
              on_hello-other st.upstream.is_connected st.upstream.cache now a addr (with_locks st)
                o)
        | inr k ↦ rw k (
            on_session-other (policy_of config) st.upstream.cache a now hdr payload addr
              (with_locks st) o)
      ])
