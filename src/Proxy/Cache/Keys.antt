-- ===== src/Proxy/Cache/Keys.antt =====
-- The cache of cache.rs as a map from keys to commands.
use atemproxy.Prelude.{
  not, ◌||◌, ◌∙◌, ap, ◌≡◌, refl, inl, inr, ◌↔◌, arith, bytes_eq_iff, Bool-cases, ℕ, Bool, true,
  ◌&&◌, Option, none, some, List, [], ◌∷◌, if◌then◌else◌,
}
use atemproxy.Protocol.Error.{ok}
use atemproxy.Protocol.Command.{CommandName, CommandRef, name_eq, init_complete, parse_commands}
use atemproxy.Protocol.Classify.Names.{name_eq_iff}
use atemproxy.Proxy.Cache.{
  CacheKey, key_eq, StateMap, get, upsert, StateCache, key_of, is_skipped, ingest_command,
  ingest_commands, ingest_payload, note_product, note_version,
}

pub key_eq_iff : (a b : CacheKey) → (key_eq a b ≡ true) ↔ (a ≡ b)
unfolding key_eq
key_eq_iff a b = ground (arith, name_eq_iff a.name b.name, bytes_eq_iff a.identity b.identity)

-- What the cache holds after an `upsert`: the new command under its key, the rest as it was.
pub get-upsert :
    (k j : CacheKey) (v : List ℕ) (m : StateMap)
    → get k (upsert j v m) ≡ (if key_eq j k then some v else get k m)
unfolding get upsert
get-upsert k j v [] = refl
get-upsert k j v ((i, w) ∷ m) =
    ground (arith, get-upsert k j v m, key_eq_iff i j, key_eq_iff i k, key_eq_iff j k)

-- No two entries have the same key.
abbrev pub IsDistinct : StateMap → Type 0
IsDistinct [] = Unit
IsDistinct ((k, v) ∷ m) = (get k m ≡ none) × IsDistinct m

pub upsert-IsDistinct :
    (k : CacheKey) (v : List ℕ) (m : StateMap) → IsDistinct m → IsDistinct (upsert k v m)
unfolding get upsert
upsert-IsDistinct k v [] h = (refl, tt)
upsert-IsDistinct k v ((i, w) ∷ m) h = elim (Bool-cases (key_eq i k)) [
  | inl e ↦ rw e h
  | inr e ↦ rw e (
    ground (arith, get-upsert i k v m, key_eq_iff i k, key_eq_iff k i),
    upsert-IsDistinct k v m h.1,
  )
]

note_product-entries :
    (cmd : CommandRef) (c : StateCache) → (note_product cmd c).entries ≡ c.entries
note_product-entries cmd c = ground arith

note_version-entries :
    (cmd : CommandRef) (c : StateCache) → (note_version cmd c).entries ≡ c.entries
note_version-entries cmd c = ground arith

-- Whether a command is kept as state.
abbrev pub is_kept : CommandName → Bool
is_kept name = not (is_skipped name || name_eq name init_complete)

-- The entries after a command.
pub ingest_command-entries :
    (cmd : CommandRef) (c : StateCache)
    → (ingest_command cmd c).entries
      ≡ (if is_kept cmd.name then upsert (key_of cmd) cmd.raw c.entries else c.entries)
unfolding ingest_command
ingest_command-entries cmd c =
    let c' = note_version cmd c in
    ground (arith, note_product-entries cmd c', note_version-entries cmd c)

-- The last kept command of a list that has the key, or what was known before.
abbrev pub latest : CacheKey → List CommandRef → Option (List ℕ) → Option (List ℕ)
latest k [] before = before
latest k (cmd ∷ cmds) before =
    latest k cmds (if is_kept cmd.name && key_eq (key_of cmd) k then some cmd.raw else before)

ingest_command-get :
    (k : CacheKey) (cmd : CommandRef) (c : StateCache)
    → get k ((ingest_command cmd c).entries)
      ≡ (if is_kept cmd.name && key_eq (key_of cmd) k then some cmd.raw else get k c.entries)
ingest_command-get k cmd c =
    rw (ingest_command-entries cmd c) (elim (Bool-cases (is_kept cmd.name)) [
      | inl e ↦ rw e (get-upsert k (key_of cmd) cmd.raw c.entries)
      | inr e ↦ rw e refl
    ])

ingest_commands-get :
    (k : CacheKey) (cmds : List CommandRef) (c : StateCache)
    → get k ((ingest_commands cmds c).entries) ≡ latest k cmds (get k c.entries)
unfolding ingest_commands
ingest_commands-get k [] c = refl
ingest_commands-get k (cmd ∷ cmds) c =
    ingest_commands-get k cmds (ingest_command cmd c)
    ∙ ap (latest k cmds) (ingest_command-get k cmd c)

-- After a payload the cache holds, under every key, the last command of the payload that is state
-- and has the key, and otherwise what it held before.
pub ingest_payload-get :
    (k : CacheKey) (payload : List ℕ) (cmds : List CommandRef) (c : StateCache)
    → parse_commands payload ≡ ok cmds
    → get k ((ingest_payload payload c).entries) ≡ latest k cmds (get k c.entries)
unfolding ingest_payload
ingest_payload-get k payload cmds c e = rw (e, ingest_payload) (ingest_commands-get k cmds c)
