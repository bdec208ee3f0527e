-- ===== src/Proxy/Locks/Owners.antt =====
-- LockBroker::client_lock_request of locks.rs: who owns which store.
use atemproxy.Prelude.{
  ◌≡◌, sym, refl, inl, inr, arith, ◌⊎◌, ==_iff, Bool-cases, Option-cases, ℕ, Bool, true, Option,
  none, some, List, ◌==◌, if◌then◌else◌,
}
use atemproxy.Protocol.Command.{CommandName}
use atemproxy.Protocol.Classify.{is_lock_request, lock_store_id, lock_request_enabled}
use atemproxy.Proxy.Net.{SocketAddr, put, get-put}
use atemproxy.Proxy.Locks.{
  LockDecision, StoreLock, LockTable, entry, owner_of, decide_lock, decide_unlock, request_on,
  client_lock_request,
}

-- Who owns a store once `from` has asked, and what becomes of the request.
abbrev pub decide : Bool → SocketAddr → Option SocketAddr → Option SocketAddr × LockDecision
decide want from owner = if want then decide_lock from owner else decide_unlock from owner

entry-owner : (store : ℕ) (t : LockTable) → (entry store t).owner ≡ owner_of store t
unfolding entry owner_of
entry-owner store t = ground arith

pub owner_of-put :
    (k store : ℕ) (s : StoreLock) (t : LockTable)
    → owner_of k (put store s t) ≡ (if store == k then s.owner else owner_of k t)
unfolding owner_of
owner_of-put k store s t = ground (arith, get-put k store s t)

request_on-decide :
    (from store : ℕ) (want : Bool) (t : LockTable)
    → request_on from store want t ≡ (
      put store (record (entry store t) { owner = (decide want from (owner_of store t)).0 }) t,
      (decide want from (owner_of store t)).1,
    )
unfolding request_on
request_on-decide from store want t = rw (sym (entry-owner store t)) refl

-- The owner of every store after a request on one.
request_on-owner_of :
    (from store : ℕ) (want : Bool) (t : LockTable) (k : ℕ)
    → owner_of k ((request_on from store want t).0)
      ≡ (if store == k then (decide want from (owner_of store t)).0 else owner_of k t)
request_on-owner_of from store want t k =
    rw (request_on-decide from store want t) (owner_of-put k store _ t)

decide-keeps :
    (want : Bool) (from a : SocketAddr)
    → ¬ (a ≡ from)
    → decide want from (some a) ≡ (some a, LockDecision.drop)
unfolding decide_lock decide_unlock
decide-keeps want from a h = ground arith

request_on-keeps :
    (from store : ℕ) (want : Bool) (t : LockTable) (k a : ℕ)
    → owner_of k t ≡ some a
    → ¬ (a ≡ from)
    → owner_of k ((request_on from store want t).0) ≡ some a
request_on-keeps from store want t k a h n = elim (Bool-cases (store == k)) [
  | inl e ↦
      ground
        (arith, request_on-owner_of from store want t k, decide-keeps want from a n, ==_iff store k)
  | inr e ↦ ground (arith, request_on-owner_of from store want t k)
]

-- No request of another client, on whatever store, takes a store from the client that owns it.
pub client_lock_request-keeps_owner :
    (from : SocketAddr) (name : CommandName) (body : List ℕ) (t : LockTable) (k : ℕ)
    (a : SocketAddr)
    → owner_of k t ≡ some a
    → ¬ (a ≡ from)
    → owner_of k ((client_lock_request from name body t).0) ≡ some a
unfolding client_lock_request
client_lock_request-keeps_owner from name body t k a h n =
    elim (Option-cases (lock_store_id body)) [
      | inl e ↦ ground arith
      | inr (store, e) ↦
          ground (arith, request_on-keeps from store (lock_request_enabled body) t k a h n)
    ]

-- What a request on a store says to the client and leaves in the table.
abbrev pub Verdict : SocketAddr → ℕ → Bool → LockTable → LockTable × LockDecision → Type 0
Verdict from store want t r =
    ((a : SocketAddr) × (owner_of store t ≡ some a) × ¬ (a ≡ from) × (r.1 ≡ LockDecision.drop))
    ⊎ ((r.1 ≡ LockDecision.forward) × (owner_of store r.0 ≡ (if want then some from else none)))

decide-verdict :
    (from : ℕ) (want : Bool) (owner : Option SocketAddr)
    → ((a : SocketAddr) × (owner ≡ some a)
        × ¬ (a ≡ from)
        × ((decide want from owner).1 ≡ LockDecision.drop))
      ⊎ ((decide want from owner).1 ≡ LockDecision.forward)
        × ((decide want from owner).0 ≡ (if want then some from else none))
unfolding decide_lock decide_unlock
decide-verdict from want none = ground arith
decide-verdict from want (some a) = elim (Bool-cases (a == from)) [
  | inl e ↦ ground (arith, ==_iff a from)
  | inr e ↦ inl (a, refl, (λ p. ground arith), ground arith)
]

request_on-Verdict :
    (from store : ℕ) (want : Bool) (t : LockTable)
    → Verdict from store want t (request_on from store want t)
request_on-Verdict from store want t = elim (decide-verdict from want (owner_of store t)) [
  | inl (a, e, n, d) ↦ inl (a, e, n, ground (arith, request_on-decide from store want t))
  | inr (d, o) ↦ inr (
    ground (arith, request_on-decide from store want t),
    ground (arith, request_on-owner_of from store want t store),
  )
]

pub client_lock_request-Verdict :
    (from : SocketAddr) (name : CommandName) (body : List ℕ) (t : LockTable) (store : ℕ)
    → is_lock_request name ≡ true
    → lock_store_id body ≡ some store
    → Verdict from store (lock_request_enabled body) t (client_lock_request from name body t)
unfolding client_lock_request
client_lock_request-Verdict from name body t store h e =
    rw (h, e) (request_on-Verdict from store (lock_request_enabled body) t)
