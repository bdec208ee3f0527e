-- ===== src/Proxy/Server/Datagram.antt =====
-- handle_datagram of server.rs: what a datagram of one client can change.
use atemproxy.Prelude.{
  ◌≡◌, refl, inl, inr, arith, Bool-cases, Option-cases, ℕ, Bool, ◌&&◌, List, [], ◌∷◌, ◌==◌,
  if◌then◌else◌, ◌∙◌, subst, map, All, is_empty,
}
use atemproxy.Protocol.Error.{ok, ok-injective, bind-eq-ok}
use atemproxy.Protocol.Packet.{PacketHeader, decode_packet, contains, is_retransmit, ack_request}
use atemproxy.Protocol.Session.{is_handshake_packet}
use atemproxy.Protocol.Reliable.{Millis, accept_reliable}
use atemproxy.Proxy.Net.{SocketAddr, get, get-put}
use atemproxy.Proxy.Cache.{StateCache}
use atemproxy.Proxy.Filter.{FilterPolicy, FilterState}
use atemproxy.Proxy.Server.{
  ClientSession, Server, Effect, on_hello, on_packet, on_session, handle_datagram, send_to,
  to_upstream, on_reliable,
}

other :
    {A : Type 0} (addr a : SocketAddr) (x y : A) → ¬ (a ≡ addr) → (if addr == a then x else y) ≡ y
other addr a x y h = ground arith

on_hello-other :
    (is_connected : Bool) (cache : StateCache) (now : Millis) (addr : SocketAddr) (st : Server)
    (a : SocketAddr)
    → ¬ (a ≡ addr)
    → get a ((on_hello is_connected cache now addr st).0.sessions) ≡ get a st.sessions
unfolding on_hello
on_hello-other is_connected cache now addr st a h =
    elim (Bool-cases (is_connected && cache.ready)) [
      | inl e ↦ rw e (get-put a addr _ st.sessions ∙ other addr a _ (get a st.sessions) h)
      | inr e ↦ rw e refl
    ]

on_session-other :
    (policy : FilterPolicy) (cache : StateCache) (addr : SocketAddr) (now : Millis)
    (hdr : PacketHeader) (payload : List ℕ) (st : Server) (a : SocketAddr)
    → ¬ (a ≡ addr)
    → get a ((on_session policy cache addr now hdr payload st).0.sessions) ≡ get a st.sessions
on_session-other policy cache addr now hdr payload st a h =
    elim (Option-cases (get addr st.sessions)) [
      | inl e ↦ rw (e, on_session) refl
      | inr (s, e) ↦
          rw (e, on_session) (get-put a addr _ st.sessions ∙ other addr a _ (get a st.sessions) h)
    ]

-- An effect that no client but one can notice.
abbrev pub IsFor : SocketAddr → Effect → Type 0
IsFor addr (send_to a bytes) = a ≡ addr
IsFor addr (to_upstream bytes) = Unit

forwards-IsFor :
    (addr : SocketAddr) (cmds : List (List ℕ)) → All (IsFor addr) (map to_upstream cmds)
forwards-IsFor addr [] = tt
forwards-IsFor addr (c ∷ cmds) = (tt, forwards-IsFor addr cmds)

on_reliable-IsFor :
    (policy : FilterPolicy) (addr : SocketAddr) (now : Millis) (hdr : PacketHeader)
    (payload : List ℕ) (s : ClientSession) (f : FilterState)
    → All (IsFor addr) ((on_reliable policy addr now hdr payload s f).2)
unfolding on_reliable
on_reliable-IsFor policy addr now hdr payload s f =
    elim (Bool-cases ((accept_reliable hdr.packet_id (contains hdr.flags is_retransmit) s.rel).1)) [
      | inl e ↦ rw e (elim (Bool-cases (is_empty payload)) [
        | inl p ↦ rw p tt
        | inr p ↦ rw p (forwards-IsFor addr _)
      ])
      | inr e ↦ rw e (refl, tt)
    ]

on_session-IsFor :
    (policy : FilterPolicy) (cache : StateCache) (addr : SocketAddr) (now : Millis)
    (hdr : PacketHeader) (payload : List ℕ) (st : Server)
    → All (IsFor addr) ((on_session policy cache addr now hdr payload st).1)
unfolding on_packet
on_session-IsFor policy cache addr now hdr payload st = elim (Option-cases (get addr st.sessions)) [
  | inl e ↦ rw (e, on_session) tt
  | inr (s, e) ↦
      rw (e, on_session)
        (elim (Bool-cases (contains hdr.flags ack_request)) [
          | inl r ↦ rw r (on_reliable-IsFor policy addr now hdr payload _ st.filter)
          | inr r ↦ rw r tt
        ])
]

on_hello-IsFor :
    (is_connected : Bool) (cache : StateCache) (now : Millis) (addr : SocketAddr) (st : Server)
    → All (IsFor addr) ((on_hello is_connected cache now addr st).1)
unfolding on_hello
on_hello-IsFor is_connected cache now addr st = elim (Bool-cases (is_connected && cache.ready)) [
  | inl e ↦ rw e (refl, tt)
  | inr e ↦ rw e tt
]

-- A datagram changes no session but its sender's, and whatever it makes the proxy send goes to the
-- sender or to the switcher.
pub handle_datagram-isolated :
    (policy : FilterPolicy) (is_connected : Bool) (cache : StateCache) (now : Millis)
    (bytes : List ℕ) (addr : SocketAddr) (st st' : Server) (effects : List Effect)
    → handle_datagram policy is_connected cache now bytes addr st ≡ ok (st', effects)
    → ((a : SocketAddr) → ¬ (a ≡ addr) → get a st'.sessions ≡ get a st.sessions)
      × All (IsFor addr) effects
unfolding handle_datagram
handle_datagram-isolated policy is_connected cache now bytes addr st st' effects h =
    let (p, d, e) = bind-eq-ok (decode_packet bytes) _ h in
    subst
      (λ r.
        ((a : SocketAddr) → ¬ (a ≡ addr) → get a (r.0.sessions) ≡ get a st.sessions)
        × All (IsFor addr) r.1)
      (ok-injective e)
      (elim (Bool-cases (is_handshake_packet p.0.flags)) [
        | inl q ↦ rw q (
          (λ a n. on_hello-other is_connected cache now addr st a n),
          on_hello-IsFor is_connected cache now addr st,
        )
        | inr q ↦ rw q (
          (λ a n. on_session-other policy cache addr now p.0 p.1 st a n),
          on_session-IsFor policy cache addr now p.0 p.1 st,
        )
      ])
