-- ===== src/Proxy/Cache/Views.antt =====
-- Caches of cache.rs as one sees them by their keys, and what payloads do to what one sees.
use atemproxy.Prelude.{
  ◌≡◌, refl, ap, sym, ◌∙◌, inl, inr, ℕ, Bool, true, false, ◌&&◌, Option, none, some, List, [], ◌∷◌,
  ◌++◌, if◌then◌else◌,
}
use atemproxy.Protocol.Error.{ok, err, Result-cases}
use atemproxy.Protocol.Command.{CommandRef, parse_commands}
use atemproxy.Proxy.Cache.{CacheKey, key_eq, key_of, get, StateCache, ingest_payload}
use atemproxy.Proxy.Cache.Keys.{latest, is_kept, ingest_payload-get}

-- What is known, or else what was known before.
abbrev pub or_before : Option (List ℕ) → Option (List ℕ) → Option (List ℕ)
or_before none before = before
or_before (some v) before = some v

pub or_before-none : (o : Option (List ℕ)) → or_before o none ≡ o
or_before-none none = refl
or_before-none (some v) = refl

pub or_before_assoc :
    (x y z : Option (List ℕ)) → or_before (or_before x y) z ≡ or_before x (or_before y z)
or_before_assoc none y z = refl
or_before_assoc (some v) y z = refl

abbrev pub SameView : StateCache → StateCache → Type 0
SameView c d = (k : CacheKey) → get k c.entries ≡ get k d.entries

-- A cache after several payloads.
unfoldable pub ingest_all : List (List ℕ) → StateCache → StateCache
ingest_all [] c = c
ingest_all (payload ∷ payloads) c = ingest_all payloads (ingest_payload payload c)

pub ingest_all-append :
    (ps qs : List (List ℕ)) (c : StateCache)
    → ingest_all (ps ++ qs) c ≡ ingest_all qs (ingest_all ps c)
unfolding ingest_all
ingest_all-append [] qs c = refl
ingest_all-append (p ∷ ps) qs c = ingest_all-append ps qs (ingest_payload p c)

-- What a payload, and then several, leave under a key if they leave anything.
unfoldable pub told : CacheKey → List ℕ → Option (List ℕ)
told k payload = elim (parse_commands payload) [ err _ ↦ none | ok cmds ↦ latest k cmds none ]

unfoldable pub effect : CacheKey → List (List ℕ) → Option (List ℕ)
effect k [] = none
effect k (payload ∷ payloads) = or_before (effect k payloads) (told k payload)

if_or_before :
    (b : Bool) (v : List ℕ) (before : Option (List ℕ))
    → (if b then some v else before) ≡ or_before (if b then some v else none) before
if_or_before true v before = refl
if_or_before false v before = refl

latest-or_before :
    (k : CacheKey) (cmds : List CommandRef) (before : Option (List ℕ))
    → latest k cmds before ≡ or_before (latest k cmds none) before
latest-or_before k [] before = refl
latest-or_before k (cmd ∷ cmds) before =
    let step = λ (b : Option (List ℕ)).
      if is_kept cmd.name && key_eq (key_of cmd) k then some cmd.raw else b in
    latest-or_before k cmds (step before)
    ∙ ap (or_before (latest k cmds none))
        (if_or_before (is_kept cmd.name && key_eq (key_of cmd) k) cmd.raw before)
    ∙ sym (or_before_assoc (latest k cmds none) (step none) before)
    ∙ ap (λ o. or_before o before) (sym (latest-or_before k cmds (step none)))

pub ingest_payload-told :
    (k : CacheKey) (payload : List ℕ) (c : StateCache)
    → get k ((ingest_payload payload c).entries) ≡ or_before (told k payload) (get k c.entries)
unfolding told ingest_payload
ingest_payload-told k payload c = elim (Result-cases (parse_commands payload)) [
  | inl (cmds, e) ↦
      ingest_payload-get k payload cmds c e
      ∙ latest-or_before k cmds (get k c.entries)
      ∙ rw (e, told) refl
  | inr (_, e) ↦ rw (e, told, ingest_payload) refl
]

pub ingest_all-effect :
    (k : CacheKey) (payloads : List (List ℕ)) (c : StateCache)
    → get k ((ingest_all payloads c).entries) ≡ or_before (effect k payloads) (get k c.entries)
unfolding ingest_all effect
ingest_all-effect k [] c = refl
ingest_all-effect k (p ∷ ps) c =
    ingest_all-effect k ps (ingest_payload p c)
    ∙ ap (or_before (effect k ps)) (ingest_payload-told k p c)
    ∙ sym (or_before_assoc (effect k ps) (told k p) (get k c.entries))

pub effect-append :
    (k : CacheKey) (ps qs : List (List ℕ))
    → effect k (ps ++ qs) ≡ or_before (effect k qs) (effect k ps)
unfolding effect
effect-append k [] qs = sym (or_before-none (effect k qs))
effect-append k (p ∷ ps) qs =
    ap (λ o. or_before o (told k p)) (effect-append k ps qs)
    ∙ or_before_assoc (effect k qs) (effect k ps) (told k p)
