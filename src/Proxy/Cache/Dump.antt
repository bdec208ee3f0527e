-- ===== src/Proxy/Cache/Dump.antt =====
-- The entries of the cache as commands, and StateCache::dump of cache.rs.
use atemproxy.Prelude.{
  ◌≡◌, refl, inl, inr, arith, Bool-cases, ℕ, true, false, ◌&&◌, Option, none, some, List, [], ◌∷◌,
  ◌++◌, map, All, flatten, sym, ◌∙◌, ap, ap₂, subst, if◌then◌else◌,
}
use atemproxy.Protocol.Error.{ProtocolError, ok, err, Result-cases}
use atemproxy.Protocol.Command.{
  CommandRef, name_eq, init_complete, parse_commands, synthetic_init_complete,
}
use atemproxy.Prelude.Bytes.{AreBytes}
use atemproxy.Protocol.Command.Parsing.{
  IsFramed, serialize_command-IsFramed, wire, parse_commands-wire,
}
use atemproxy.Protocol.Command.Lossless.{wire-parse_commands}
use atemproxy.Proxy.Cache.{
  CacheKey, key_eq, StateMap, StateCache, key_of, upsert, get, values, dump, ingest_command,
  ingest_commands, ingest_payload, is_skipped, empty,
}
use atemproxy.Proxy.Cache.Keys.{
  IsDistinct, upsert-IsDistinct, is_kept, ingest_command-entries, key_eq_iff, latest,
  ingest_payload-get,
}
use atemproxy.Proxy.Cache.Views.{or_before, or_before-none}

-- An entry is a command that is state, whole, under its own key.
pub record IsEntry (e : CacheKey × List ℕ) : Type 0 where
  pub cmd : CommandRef
  pub framed : IsFramed cmd
  pub key : key_of cmd ≡ e.0
  pub raw : cmd.raw ≡ e.1
  pub kept : is_kept cmd.name ≡ true

-- The entries of a cache: commands of the switcher, at most one for a key.
abbrev pub IsState : StateMap → Type 0
IsState m = IsDistinct m × All IsEntry m

upsert-IsEntry :
    (k : CacheKey) (v : List ℕ) (m : StateMap)
    → IsEntry (k, v)
    → All IsEntry m
    → All IsEntry (upsert k v m)
unfolding upsert
upsert-IsEntry k v [] e h = (e, tt)
upsert-IsEntry k v ((j, w) ∷ m) e h = elim (Bool-cases (key_eq j k)) [
  | inl q ↦ rw q (subst (λ i. IsEntry (i, v)) (sym ((key_eq_iff j k).0 q)) e, h.1)
  | inr q ↦ rw q (h.0, upsert-IsEntry k v m e h.1)
]

ingest_command-IsState :
    (cmd : CommandRef) (c : StateCache)
    → IsFramed cmd
    → IsState c.entries
    → IsState ((ingest_command cmd c).entries)
ingest_command-IsState cmd c f h =
    rw (ingest_command-entries cmd c) (elim (Bool-cases (is_kept cmd.name)) [
      | inl e ↦ rw e (
        upsert-IsDistinct (key_of cmd) cmd.raw c.entries h.0,
        upsert-IsEntry (key_of cmd) cmd.raw c.entries
            (record { cmd = cmd; framed = f; key = refl; raw = refl; kept = e }) h.1,
      )
      | inr e ↦ rw e h
    ])

ingest_commands-IsState :
    (cmds : List CommandRef) (c : StateCache)
    → All IsFramed cmds
    → IsState c.entries
    → IsState ((ingest_commands cmds c).entries)
unfolding ingest_commands
ingest_commands-IsState [] c f h = h
ingest_commands-IsState (cmd ∷ cmds) c f h =
    ingest_commands-IsState cmds (ingest_command cmd c) f.1 (ingest_command-IsState cmd c f.0 h)

-- So it is for a payload that is read as framed commands.
pub read-IsState :
    (payload : List ℕ) (cmds : List CommandRef) (c : StateCache)
    → parse_commands payload ≡ ok cmds
    → All IsFramed cmds
    → IsState c.entries
    → IsState ((ingest_payload payload c).entries)
unfolding ingest_payload
read-IsState payload cmds c e f h = rw (e, ingest_payload) (ingest_commands-IsState cmds c f h)

pub unread-entries :
    (payload : List ℕ) (x : ProtocolError) (c : StateCache)
    → parse_commands payload ≡ err x
    → (ingest_payload payload c).entries ≡ c.entries
unfolding ingest_payload
unread-entries payload x c e = rw (e, ingest_payload) refl

-- Ingesting any bytes keeps the cache's entries whole commands that are state, each under its own
-- key, with no key twice.
pub ingest_payload-IsState :
    (payload : List ℕ) (c : StateCache)
    → AreBytes payload
    → IsState c.entries
    → IsState ((ingest_payload payload c).entries)
ingest_payload-IsState payload c b h = elim (Result-cases (parse_commands payload)) [
  | inl (cmds, e) ↦ read-IsState payload cmds c e (wire-parse_commands payload cmds b e).0 h
  | inr (x, e) ↦ subst IsState (sym (unread-entries payload x c e)) h
]

abbrev pub init_complete_ref : CommandRef
init_complete_ref = record {
  name = init_complete;
  raw = synthetic_init_complete;
  body = 1 ∷ 0 ∷ 0 ∷ 0 ∷ [];
}

init_complete_ref-IsFramed : IsFramed init_complete_ref
unfolding synthetic_init_complete
init_complete_ref-IsFramed =
    serialize_command-IsFramed init_complete (1 ∷ 0 ∷ 0 ∷ 0 ∷ []) (ground arith)

-- The commands that the entries are, and `InCm`.
abbrev pub commands_of : (m : StateMap) → All IsEntry m → List CommandRef
commands_of [] h = init_complete_ref ∷ []
commands_of (e ∷ m) h = h.0.cmd ∷ commands_of m h.1

pub commands_of-IsFramed : (m : StateMap) (h : All IsEntry m) → All IsFramed (commands_of m h)
commands_of-IsFramed [] h = (init_complete_ref-IsFramed, tt)
commands_of-IsFramed (e ∷ m) h = (h.0.framed, commands_of-IsFramed m h.1)

commands_of-wire :
    (m : StateMap) (h : All IsEntry m)
    → wire (commands_of m h) ≡ flatten (values m ++ synthetic_init_complete ∷ [])
commands_of-wire [] h = refl
commands_of-wire (e ∷ m) h = ap₂ ◌++◌ h.0.raw (commands_of-wire m h.1)

abbrev pub keys : StateMap → List CacheKey
keys = map (λ e. e.0)

commands_of-keys :
    (m : StateMap) (h : All IsEntry m)
    → map key_of (commands_of m h) ≡ keys m ++ key_of init_complete_ref ∷ []
commands_of-keys [] h = refl
commands_of-keys (e ∷ m) h = ap₂ ◌∷◌ h.0.key (commands_of-keys m h.1)

parse_commands-commands_of :
    (c : StateCache) (h : IsState c.entries)
    → parse_commands (flatten (dump c)) ≡ ok (commands_of c.entries h.1)
unfolding dump
parse_commands-commands_of c h =
    ap parse_commands (sym (commands_of-wire c.entries h.1))
    ∙ parse_commands-wire (commands_of c.entries h.1) (commands_of-IsFramed c.entries h.1)

-- The dump of a cache whose entries are whole commands can be read back as commands, and they are
-- one for each key, in the cache's order, with `InCm` after them.
pub parse_commands-dump :
    (c : StateCache)
    → IsState c.entries
    → (cmds : List CommandRef) × (parse_commands (flatten (dump c)) ≡ ok cmds)
      × (map key_of cmds ≡ keys c.entries ++ key_of init_complete_ref ∷ [])
parse_commands-dump c h =
    (commands_of c.entries h.1, parse_commands-commands_of c h, commands_of-keys c.entries h.1)

init_complete-not_kept : is_kept init_complete ≡ false
unfolding name_eq is_skipped
init_complete-not_kept = ground arith

entry-latest :
    (k j : CacheKey) (v : List ℕ) (e : IsEntry (j, v)) (before : Option (List ℕ))
    → (if is_kept e.cmd.name && key_eq (key_of e.cmd) k then some e.cmd.raw else before)
      ≡ (if key_eq j k then some v else before)
entry-latest k j v e before = rw (e.kept, e.key, e.raw) refl

latest-commands_of :
    (k : CacheKey) (m : StateMap) (h : All IsEntry m) (before : Option (List ℕ))
    → IsDistinct m
    → latest k (commands_of m h) before ≡ or_before (get k m) before
unfolding get
latest-commands_of k [] h before d = rw init_complete-not_kept refl
latest-commands_of k ((j, v) ∷ m) h before d =
    ap (latest k (commands_of m h.1)) (entry-latest k j v h.0 before)
    ∙ latest-commands_of k m h.1 (if key_eq j k then some v else before) d.1
    ∙ elim (Bool-cases (key_eq j k)) [
      | inl e ↦ rw (e, subst (λ i. get i m ≡ none) ((key_eq_iff j k).0 e) d.0) refl
      | inr e ↦ rw e refl
    ]

-- If the cache's entries are whole commands under distinct keys, an empty cache that ingests the
-- dump holds under every key what the cache holds, and nothing where it holds nothing.
pub ingest_payload-dump :
    (c : StateCache) (k : CacheKey)
    → IsState c.entries
    → get k ((ingest_payload (flatten (dump c)) empty).entries) ≡ get k c.entries
unfolding get
ingest_payload-dump c k h =
    ingest_payload-get k (flatten (dump c)) (commands_of c.entries h.1) empty
      (parse_commands-commands_of c h)
    ∙ latest-commands_of k c.entries h.1 none h.0
    ∙ or_before-none (get k c.entries)
