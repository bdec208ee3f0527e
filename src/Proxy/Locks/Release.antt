-- ===== src/Proxy/Locks/Release.antt =====
-- LockBroker::client_disconnected of locks.rs: the lock table when a client goes.
use atemproxy.Prelude.{◌≡◌, refl, arith, ℕ, false, none, List, [], ◌∷◌, map, ◌&&◌, if◌then◌else◌}
use atemproxy.Protocol.Classify.{synthesize_unlock}
use atemproxy.Proxy.Net.{SocketAddr, is_addr, get}
use atemproxy.Proxy.Locks.{LockTable, owner_of, client_disconnected, is_owner, stores_owned_by}

-- After a client's disconnection a store is nobody's if it was the client's, and its owner is the
-- same if it was not.
pub client_disconnected-owner_of :
    (addr : SocketAddr) (t : LockTable) (k : ℕ)
    → owner_of k ((client_disconnected addr t).0)
      ≡ (if is_addr (owner_of k t) addr then none else owner_of k t)
unfolding client_disconnected owner_of get
client_disconnected-owner_of addr [] k = refl
client_disconnected-owner_of addr ((j, s) ∷ t) k =
    ground (arith, client_disconnected-owner_of addr t k)

-- The stores a client owns that the switcher has reported locked, in the table's order.
abbrev pub to_release : SocketAddr → LockTable → List ℕ
to_release addr [] = []
to_release addr ((store, s) ∷ t) =
    if is_addr s.owner addr && s.upstream_locked
    then store ∷ to_release addr t
    else to_release addr t

-- A client's disconnection leaves it no store, and returns one unlock command for each of its
-- stores that the switcher has reported locked, and no other.
pub client_disconnected-unlocks :
    (addr : SocketAddr) (t : LockTable)
    → (is_owner addr ((client_disconnected addr t).0) ≡ false)
      × (stores_owned_by addr ((client_disconnected addr t).0) ≡ [])
      × ((client_disconnected addr t).1 ≡ map synthesize_unlock (to_release addr t))
unfolding client_disconnected is_owner stores_owned_by
client_disconnected-unlocks addr [] = (refl, refl, refl)
client_disconnected-unlocks addr ((j, s) ∷ t) = ground (arith, client_disconnected-unlocks addr t)
