-- ===== src/Proxy/Server/Timeout.antt =====
-- The timer of server.rs, and the clients that have gone silent.
use atemproxy.Prelude.{
  ◌≡◌, refl, inl, inr, arith, Bool-cases, ℕ, ◌-◌, false, none, some, List, [], ◌∷◌, map, All, ltb,
  ◌==◌, if◌then◌else◌, ◌⊎◌, ap, subst,
}
use atemproxy.Protocol.Reliable.{Millis}
use atemproxy.Proxy.Net.{SocketAddr, is_addr}
use atemproxy.Proxy.Locks
use atemproxy.Proxy.Locks.{LockTable, is_owner}
use atemproxy.Proxy.Transfer
use atemproxy.Proxy.Transfer.{Lane, current_owner}
use atemproxy.Proxy.Filter
use atemproxy.Proxy.Filter.{FilterState, leave_audio}
use atemproxy.Proxy.Server.{
  ClientSession, Server, poll_sessions, disconnect_all, on_tick, idle_limit,
}

-- A client has a share in nothing: it owns no lock and not the lane.
abbrev pub IsReleased : FilterState → SocketAddr → Type 0
IsReleased f addr = (is_owner addr f.locks ≡ false) × (is_addr (current_owner f.lane) addr ≡ false)

is_owner-disconnected :
    (a b : SocketAddr) (t : LockTable)
    → is_owner a ((Locks.client_disconnected b t).0) ≡ (if b == a then false else is_owner a t)
unfolding Locks.client_disconnected is_owner
is_owner-disconnected a b [] = ground arith
is_owner-disconnected a b ((j, s) ∷ t) = ground (arith, is_owner-disconnected a b t)

lane-disconnected :
    (a b : SocketAddr) (lane : Lane)
    → is_addr (current_owner (Transfer.client_disconnected b lane)) a
      ≡ (if b == a then false else is_addr (current_owner lane) a)
unfolding Transfer.client_disconnected current_owner
lane-disconnected a b none = ground arith
lane-disconnected a b (some l) = ground arith

client_disconnected-IsReleased :
    (a b : SocketAddr) (f : FilterState)
    → (a ≡ b) ⊎ IsReleased f a
    → IsReleased ((Filter.client_disconnected b f).0) a
unfolding Filter.client_disconnected
client_disconnected-IsReleased a b f h =
    ground (arith, is_owner-disconnected a b f.locks, lane-disconnected a b f.lane)

disconnect_all-keeps :
    (a : SocketAddr) (dead : List SocketAddr) (f : FilterState)
    → IsReleased f a
    → IsReleased ((disconnect_all dead f).0) a
unfolding disconnect_all
disconnect_all-keeps a [] f h = h
disconnect_all-keeps a (b ∷ dead) f h =
    disconnect_all-keeps a dead ((Filter.client_disconnected b f).0)
      (client_disconnected-IsReleased a b f (inr h))

disconnect_all-IsReleased :
    (dead : List SocketAddr) (f : FilterState) → All (IsReleased ((disconnect_all dead f).0)) dead
unfolding disconnect_all
disconnect_all-IsReleased [] f = tt
disconnect_all-IsReleased (b ∷ dead) f =
    let f' = (Filter.client_disconnected b f).0 in
    (
      disconnect_all-keeps b dead f' (client_disconnected-IsReleased b b f (inl refl)),
      disconnect_all-IsReleased dead f',
    )

-- The addresses of the sessions that have been silent for too long.
abbrev pub silent : ℕ → Millis → List (SocketAddr × ClientSession) → List SocketAddr
silent idle now [] = []
silent idle now ((addr, s) ∷ sessions) =
    if ltb idle (now - s.rel.last_recv_at)
    then addr ∷ silent idle now sessions
    else silent idle now sessions

poll_sessions-dead :
    (idle : ℕ) (now clock : Millis) (sessions : List (SocketAddr × ClientSession))
    → (poll_sessions idle now clock sessions).1 ≡ silent idle now sessions
unfolding poll_sessions
poll_sessions-dead idle now clock [] = refl
poll_sessions-dead idle now clock ((addr, s) ∷ sessions) =
    ground (arith, poll_sessions-dead idle now clock sessions)

-- The addresses of the others.
abbrev pub awake : ℕ → Millis → List (SocketAddr × ClientSession) → List SocketAddr
awake idle now [] = []
awake idle now ((addr, s) ∷ sessions) =
    if ltb idle (now - s.rel.last_recv_at)
    then awake idle now sessions
    else addr ∷ awake idle now sessions

poll_sessions-alive :
    (idle : ℕ) (now clock : Millis) (sessions : List (SocketAddr × ClientSession))
    → map (λ e. e.0) ((poll_sessions idle now clock sessions).0) ≡ awake idle now sessions
unfolding poll_sessions
poll_sessions-alive idle now clock [] = refl
poll_sessions-alive idle now clock ((addr, s) ∷ sessions) =
    elim (Bool-cases (ltb idle (now - s.rel.last_recv_at))) [
      | inl e ↦ rw e (poll_sessions-alive idle now clock sessions)
      | inr e ↦ rw e (ap (◌∷◌ addr) (poll_sessions-alive idle now clock sessions))
    ]

-- A tick of the timer ends the sessions that have been silent for longer than the limit, and no
-- other, and leaves their clients without a lock and without the transfer lane.
pub on_tick-silent :
    (client_idle_ms : ℕ) (now clock : Millis) (st : Server)
    → let st' = (on_tick client_idle_ms now clock st).0 in
      (map (λ e. e.0) st'.sessions ≡ awake (idle_limit client_idle_ms) now st.sessions)
      × All (IsReleased st'.filter) (silent (idle_limit client_idle_ms) now st.sessions)
unfolding on_tick
on_tick-silent client_idle_ms now clock st =
    let idle = idle_limit client_idle_ms in
    (
      poll_sessions-alive idle now clock st.sessions,
      subst (All (IsReleased ((on_tick client_idle_ms now clock st).0.filter)))
          (poll_sessions-dead idle now clock st.sessions)
          (disconnect_all-IsReleased ((poll_sessions idle now clock st.sessions).1) st.filter),
    )
