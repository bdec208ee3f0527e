-- ===== src/Proxy/Locks/Tests.antt =====
-- The theorems on the lock table at concrete inputs: client 7 owns store 0, which the switcher has
-- reported locked.
use atemproxy.Prelude.{ℕ, ◌≡◌, refl, true, false, some, List, [], ◌∷◌, map}
use atemproxy.Protocol.Classify.{synthesize_unlock}
use atemproxy.Proxy.Net.{get}
use atemproxy.Proxy.Locks.{LockTable, owner_of, client_disconnected, is_owner, stores_owned_by}
use atemproxy.Proxy.Locks.Release.{to_release, client_disconnected-unlocks}

abbrev table : LockTable
table = (0, record { owner = some 7; upstream_locked = true }) ∷ []

abbrev ask : List ℕ
ask = 0 ∷ 0 ∷ 1 ∷ 0 ∷ []

owned : owner_of 0 table ≡ some 7
unfolding owner_of get
owned = refl

client_disconnected-unlocks_example :
    (is_owner 7 ((client_disconnected 7 table).0) ≡ false)
    × (stores_owned_by 7 ((client_disconnected 7 table).0) ≡ [])
    × ((client_disconnected 7 table).1 ≡ map synthesize_unlock (to_release 7 table))
client_disconnected-unlocks_example = client_disconnected-unlocks 7 table
