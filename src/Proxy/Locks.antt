-- ===== src/Proxy/Locks.antt =====
-- crates/atem-proxy/src/locks.rs: who holds the lock of each media store.
pub mod Owners
pub mod Release
mod Tests
use atemproxy.Prelude.{
  ℕ, Bool, true, false, Option, none, some, List, [], ◌∷◌, ◌==◌, ◌||◌, if◌then◌else◌, any,
}
use atemproxy.Protocol.Error.{ok, err}
use atemproxy.Protocol.Command.{CommandName, CommandRef, parse_commands}
use atemproxy.Protocol.Classify.{
  is_lock_request, is_lock_status, lock_store_id, lock_request_enabled, synthesize_unlock,
}
use atemproxy.Proxy.Net.{SocketAddr, is_addr, get, put}

pub data LockDecision : Type 0 where
  forward drop : LockDecision

pub record StoreLock : Type 0 where
  pub owner : Option SocketAddr
  pub upstream_locked : Bool

abbrev pub unlocked : StoreLock
unlocked = record { owner = none; upstream_locked = false }

-- `HashMap<u16, StoreLock>`; `clear` makes it empty.
abbrev pub LockTable : Type 0
LockTable = List (ℕ × StoreLock)

-- `entry(store).or_default()`
unfoldable pub entry : ℕ → LockTable → StoreLock
entry store t = elim (get store t) [ none ↦ unlocked | some s ↦ s ]

unfoldable pub owner_of : ℕ → LockTable → Option SocketAddr
owner_of store t = elim (get store t) [ none ↦ none | some s ↦ s.owner ]

unfoldable pub stores_owned_by : SocketAddr → LockTable → List ℕ
stores_owned_by addr [] = []
stores_owned_by addr ((store, s) ∷ t) =
    let rest = stores_owned_by addr t in if is_addr s.owner addr then store ∷ rest else rest

-- The decision on an entry: who owns it afterwards, and what becomes of the request.
unfoldable pub decide_lock : SocketAddr → Option SocketAddr → Option SocketAddr × LockDecision
decide_lock from none = (some from, forward)
decide_lock from (some owner) = if owner == from then (some owner, forward) else (some owner, drop)

unfoldable pub decide_unlock : SocketAddr → Option SocketAddr → Option SocketAddr × LockDecision
decide_unlock from none = (none, forward)
decide_unlock from (some owner) = if owner == from then (none, forward) else (some owner, drop)

unfoldable pub request_on : SocketAddr → ℕ → Bool → LockTable → LockTable × LockDecision
request_on from store want_lock t =
    let e = entry store t in
    let (owner, decision) =
      if want_lock then decide_lock from e.owner else decide_unlock from e.owner in
    (put store (record e { owner = owner }) t, decision)

unfoldable pub client_lock_request :
    SocketAddr → CommandName → List ℕ → LockTable → LockTable × LockDecision
client_lock_request from name body t =
    if is_lock_request name
    then elim (lock_store_id body) [
      | none ↦ (t, drop)
      | some store ↦ request_on from store (lock_request_enabled body) t
    ]
    else (t, forward)

-- One status: the switcher's word is kept, and a released store loses its owner.
unfoldable pub note_status : ℕ → Bool → LockTable → LockTable
note_status store locked t =
    let e = entry store t in
    put store (record { owner = if locked then e.owner else none; upstream_locked = locked }) t

unfoldable pub status_command : CommandRef → LockTable → LockTable
status_command cmd t =
    if is_lock_status cmd.name
    then elim (lock_store_id cmd.body) [
      | none ↦ t
      | some store ↦ note_status store (lock_request_enabled cmd.body) t
    ]
    else t

unfoldable pub status_commands : List CommandRef → LockTable → LockTable
status_commands [] t = t
status_commands (cmd ∷ cmds) t = status_commands cmds (status_command cmd t)

unfoldable pub on_upstream_lock_status : List ℕ → LockTable → LockTable
on_upstream_lock_status payload t = elim (parse_commands payload) [
  | err _ ↦ t
  | ok cmds ↦ status_commands cmds t
]

-- The loop over the table: what is left of it, and the unlock commands to forward.
unfoldable pub client_disconnected : SocketAddr → LockTable → LockTable × List (List ℕ)
client_disconnected addr [] = ([], [])
client_disconnected addr ((store, s) ∷ t) =
    let (t', unlocks) = client_disconnected addr t in
    if is_addr s.owner addr
    then (
      (store, record s { owner = none }) ∷ t',
      if s.upstream_locked then synthesize_unlock store ∷ unlocks else unlocks,
    )
    else ((store, s) ∷ t', unlocks)

unfoldable pub is_owner : SocketAddr → LockTable → Bool
is_owner addr t = any (λ e. is_addr e.1.owner addr) t
