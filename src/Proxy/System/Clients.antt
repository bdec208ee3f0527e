-- ===== src/Proxy/System/Clients.antt =====
-- What a client of the proxy has been told and is still to be told, against the switcher's cache.
use atemproxy.Prelude.{
  ◌≡◌, refl, ap, sym, subst, ◌∙◌, inl, inr, Bool-cases, ℕ, true, false, none, List, [], ◌∷◌, ◌++◌,
  if◌then◌else◌,
}
use atemproxy.Protocol.Reliable.{Millis, pack}
use atemproxy.Protocol.Reliable.Packing.{packed-Grouping}
use atemproxy.Proxy.Cache.{CacheKey, get, StateCache, empty, dump}
use atemproxy.Proxy.Cache.Dump.{IsState}
use atemproxy.Proxy.Cache.Packed.{dump-NonEmpty, effect-dump}
use atemproxy.Proxy.Cache.Views.{told, effect, effect-append, or_before, or_before-none}
use atemproxy.Proxy.Upstream.{UpstreamEvent}
use atemproxy.Proxy.Upstream.Hearing.{states, Unbroken, Settled}
use atemproxy.Proxy.Server.{ClientSession, new_session}
use atemproxy.Proxy.Server.Queues.{Queued, same, opens}

-- The queue and the events to come make of what the client knows what the cache knows.
abbrev pub Known : List (List ℕ) → List UpstreamEvent → StateCache → StateCache → Type 0
Known queue unread v cache =
    Unbroken unread
    → (k : CacheKey)
    → or_before (effect k (queue ++ states unread)) (get k v.entries) ≡ get k cache.entries

-- `v` is what the client knows; before its session is open that is nothing.
pub record IsTold (s : ClientSession) (v : StateCache) (unread : List UpstreamEvent)
    (cache : StateCache) : Type 0 where
  pub closed : s.opened ≡ false → (s.rel.outbound ≡ []) × (v ≡ empty)
  pub known : s.opened ≡ true → Known s.rel.outbound unread v cache

abbrev pub kept : ClientSession → StateCache → StateCache
kept s v = if s.opened then v else empty

pub IsTold-kept :
    (s : ClientSession) (v : StateCache) (unread : List UpstreamEvent) (cache : StateCache)
    → IsTold s v unread cache
    → IsTold s (kept s v) unread cache
IsTold-kept s v unread cache h = elim (Bool-cases s.opened) [
  | inl e ↦
      let same_view : kept s v ≡ v = rw e refl in
      subst (λ w. IsTold s w unread cache) (sym same_view) h
  | inr e ↦
      let nothing : kept s v ≡ v =
        (let p : kept s v ≡ empty = rw e refl in p ∙ sym (h.closed e).1) in
      subst (λ w. IsTold s w unread cache) (sym nothing) h
]

pub Settled-effect :
    (es : List UpstreamEvent) (c : StateCache) (k : CacheKey)
    → Settled es c
    → Unbroken es
    → or_before (effect k (states es)) (get k c.entries) ≡ get k c.entries
unfolding effect
Settled-effect [] c k h u = refl
Settled-effect (e ∷ es) c k h u = h.0 u k

pub effect-packed :
    (c : StateCache) (k : CacheKey)
    → IsState c.entries
    → effect k (pack [] (dump c)) ≡ get k c.entries
effect-packed c k h =
    effect-dump c (pack [] (dump c)) k h (packed-Grouping (dump c) (dump-NonEmpty c h))

-- A packet of the client.
pub Queued-IsTold :
    (s s' : ClientSession) (v : StateCache) (unread : List UpstreamEvent) (cache : StateCache)
    → Queued (dump cache) s s'
    → IsState cache.entries
    → Settled unread cache
    → IsTold s v unread cache
    → IsTold s' v unread cache
unfolding get
Queued-IsTold s s' v unread cache (same o q) w r h = record {
  closed = λ e. let (c, n) = h.closed (sym o ∙ e) in (q ∙ c, n);
  known = λ e. subst (λ x. Known x unread v cache) (sym q) (h.known (sym o ∙ e));
}
Queued-IsTold s s' v unread cache (opens c o q) w r h = record {
  closed = λ e. absurd (cc (o, e));
  known = λ e u k.
      let (none_queued, nothing) = h.closed c in
      rw
        (
          q,
          none_queued,
          nothing,
          effect-append k (pack [] (dump cache)) (states unread),
          effect-packed cache k w,
        )
        (or_before-none _ ∙ Settled-effect unread cache k r u);
}

pub new_session-IsTold :
    (id : ℕ) (now : Millis) (unread : List UpstreamEvent) (cache : StateCache)
    → IsTold (new_session id now) empty unread cache
new_session-IsTold id now unread cache = record {
  closed = λ e. (refl, refl);
  known = λ e. absurd (cc);
}

pub effect-hint :
    (k : CacheKey) (xs ys : List (List ℕ)) (p : List ℕ)
    → told k p ≡ none
    → effect k ((xs ++ p ∷ []) ++ ys) ≡ effect k (xs ++ ys)
unfolding effect
effect-hint k xs ys p e =
    effect-append k (xs ++ p ∷ []) ys
    ∙ ap (or_before (effect k ys))
        (effect-append k xs (p ∷ []) ∙ ap (λ x. or_before x (effect k xs)) e)
    ∙ sym (effect-append k xs ys)
