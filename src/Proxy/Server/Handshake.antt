-- ===== src/Proxy/Server/Handshake.antt =====
-- The first packet of a client, in handle_datagram of server.rs.
use atemproxy.Prelude.{
  ◌≡◌, refl, inl, inr, ◌⊎◌, Bool-cases, Bool, true, false, ◌&&◌, some, [], ◌∷◌, ◌==◌, if◌then◌else◌,
}
use atemproxy.Protocol.Session.{server_session_id, build_server_handshake_reply}
use atemproxy.Protocol.Reliable.{Millis}
use atemproxy.Proxy.Net.{SocketAddr, get, get-put}
use atemproxy.Proxy.Cache.{StateCache}
use atemproxy.Proxy.Server.{Server, send_to, new_session, on_hello}

-- While the switcher is connected and its state known, a HELLO is answered with the next session
-- id, its sender gets a new session under that id, and no other session changes. Otherwise nothing
-- is sent and nothing changes.
pub on_hello-gate :
    (is_connected : Bool) (cache : StateCache) (now : Millis) (addr : SocketAddr) (st : Server)
    → let r = on_hello is_connected cache now addr st in
      ((is_connected && cache.ready ≡ true)
        × (r.1 ≡ send_to addr (build_server_handshake_reply (server_session_id st.next_sid)) ∷ [])
        × ((a : SocketAddr)
            → get a (r.0.sessions) ≡ (
                if addr == a
                then some (new_session (server_session_id st.next_sid) now)
                else get a st.sessions)))
      ⊎ ((is_connected && cache.ready ≡ false) × (r ≡ (st, [])))
unfolding on_hello
on_hello-gate is_connected cache now addr st = elim (Bool-cases (is_connected && cache.ready)) [
  | inl e ↦ inl (e, rw e refl, λ a. rw e (get-put a addr _ st.sessions))
  | inr e ↦ inr (e, rw e refl)
]
