-- ===== src/Proxy/Cache.antt =====
-- crates/atem-proxy/src/cache.rs: the switcher's state as a new client is told it. An `IndexMap` is
-- the list of its entries in the order of their first insertion.
pub mod Keys
pub mod Dump
pub mod Views
pub mod Packed
mod Tests
use atemproxy.Prelude.{
  ℕ, Bool, true, false, ◌&&◌, ◌||◌, Option, none, some, List, [], ◌∷◌, ◌++◌, if◌then◌else◌, map,
  bytes_eq,
}
use atemproxy.Protocol.Error.{ok, err}
use atemproxy.Protocol.Command.{
  CommandName, command_name, CommandRef, name_eq, init_complete, parse_commands, parse_version,
  parse_product_name, synthetic_init_complete,
}
use atemproxy.Protocol.Classify.{
  command_identity, is_ephemeral_command, is_lock_command, is_transfer_command,
}

pub record CacheKey : Type 0 where
  pub name : CommandName
  pub identity : List ℕ

-- The derived `==`.
unfoldable pub key_eq : CacheKey → CacheKey → Bool
key_eq a b = name_eq a.name b.name && bytes_eq a.identity b.identity

abbrev pub StateMap : Type 0
StateMap = List (CacheKey × List ℕ)

unfoldable pub get : CacheKey → StateMap → Option (List ℕ)
get k [] = none
get k ((j, v) ∷ m) = if key_eq j k then some v else get k m

-- `get_mut` and an assignment, or `insert` at the end.
unfoldable pub upsert : CacheKey → List ℕ → StateMap → StateMap
upsert k v [] = (k, v) ∷ []
upsert k v ((j, w) ∷ m) = if key_eq j k then (j, v) ∷ m else (j, w) ∷ upsert k v m

pub record StateCache : Type 0 where
  pub entries : StateMap
  pub version : Option (ℕ × ℕ)
  pub product : Option (List ℕ)
  pub ready : Bool

-- `new`, and what `clear` leaves.
abbrev pub empty : StateCache
empty = record { entries = []; version = none; product = none; ready = false }

abbrev pub set_ready : Bool → StateCache → StateCache
set_ready ready c = record c { ready = ready }

abbrev pub ver : CommandName
ver = command_name b'_' b'v' b'e' b'r'

abbrev pub pin : CommandName
pin = command_name b'_' b'p' b'i' b'n'

abbrev pub key_of : CommandRef → CacheKey
key_of cmd = record { name = cmd.name; identity = command_identity cmd.name cmd.body }

-- Commands that are not state.
unfoldable pub is_skipped : CommandName → Bool
is_skipped name = is_ephemeral_command name || is_lock_command name || is_transfer_command name

abbrev pub note_version : CommandRef → StateCache → StateCache
note_version cmd c =
    if name_eq cmd.name ver then record c { version = parse_version cmd.body } else c

abbrev pub note_product : CommandRef → StateCache → StateCache
note_product cmd c =
    if name_eq cmd.name pin
    then elim (parse_product_name cmd.body) [
      | none ↦ c
      | some name ↦ record c { product = some name }
    ]
    else c

abbrev pub store : CommandRef → StateCache → StateCache
store cmd c = record c { entries = upsert (key_of cmd) cmd.raw c.entries }

-- The body of the loop of `ingest_payload`.
unfoldable pub ingest_command : CommandRef → StateCache → StateCache
ingest_command cmd c =
    if is_skipped cmd.name
    then c
    else (if name_eq cmd.name init_complete
        then set_ready true c
        else store cmd (note_product cmd (note_version cmd c)))

unfoldable pub ingest_commands : List CommandRef → StateCache → StateCache
ingest_commands [] c = c
ingest_commands (cmd ∷ cmds) c = ingest_commands cmds (ingest_command cmd c)

unfoldable pub ingest_payload : List ℕ → StateCache → StateCache
ingest_payload payload c = elim (parse_commands payload) [
  | err _ ↦ c
  | ok cmds ↦ ingest_commands cmds c
]

abbrev pub values : StateMap → List (List ℕ)
values = map (λ e. e.1)

unfoldable pub dump : StateCache → List (List ℕ)
dump c = values c.entries ++ synthetic_init_complete ∷ []
