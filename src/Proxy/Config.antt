-- ===== src/Proxy/Config.antt =====
-- crates/atem-proxy/src/config.rs and `load_cfg` of main.rs. A `String` is the list of its
-- characters. The file system, the TOML parser and the parser of addresses are arguments.
pub mod Profile
mod Tests
use atemproxy.Prelude.{
  ℕ, ◌+◌, Bool, true, false, ◌&&◌, ◌||◌, Option, none, some, List, [], ◌∷◌, ◌++◌, ltb, leb, ◌==◌,
  if◌then◌else◌, any, bytes_eq, map,
}
use atemproxy.Prelude.Text.{decimal}
use atemproxy.Protocol.Packet.{atem_udp_port}
use atemproxy.Proxy.Net.{SocketAddr}

abbrev pub Text : Type 0
Text = List ℕ

pub data LockMode : Type 0 where
  deny single_owner : LockMode

pub record CompatConfig : Type 0 where
  pub softatem : Bool

pub record LocksConfig : Type 0 where
  pub mode : LockMode

pub record MediaConfig : Type 0 where
  pub enabled : Bool
  pub chunk_delay_ms : ℕ
  pub max_upload_mb : ℕ

pub record DiscoveryConfig : Type 0 where
  pub mdns : Bool

pub record Config : Type 0 where
  pub atem : Text
  pub bind : SocketAddr
  pub mdns : Bool
  pub client_idle_ms : ℕ
  pub reconnect_ms : ℕ
  pub log : Text
  pub log_file : Option Text
  pub compat : CompatConfig
  pub locks : LocksConfig
  pub media : MediaConfig
  pub discovery : DiscoveryConfig

abbrev pub default_media : MediaConfig
default_media = record { enabled = false; chunk_delay_ms = 0; max_upload_mb = 64 }

abbrev info_level : Text
info_level = b'i' ∷ b'n' ∷ b'f' ∷ b'o' ∷ []

abbrev default_atem : Text
default_atem =
    b'1' ∷ b'9' ∷ b'2' ∷ b'.' ∷ b'1' ∷ b'6' ∷ b'8' ∷ b'.' ∷ b'1' ∷ b'.' ∷ b'5' ∷ b'0' ∷ []

-- `bind` is the address that "0.0.0.0:9910" is parsed to.
unfoldable pub default_config : SocketAddr → Config
default_config bind = record {
  atem = default_atem;
  bind = bind;
  mdns = false;
  client_idle_ms = 5000;
  reconnect_ms = 1000;
  log = info_level;
  log_file = none;
  compat = record { softatem = false };
  locks = record { mode = deny };
  media = default_media;
  discovery = record { mdns = false };
}

-- The legacy flag, then the SoftAtem profile.
abbrev legacy_mdns : Config → Config
legacy_mdns c = if c.mdns then record c { discovery = record { mdns = true } } else c

abbrev softatem_profile : Config → Config
softatem_profile c =
    if c.compat.softatem
    then record c {
      locks = record { mode = single_owner };
      media = record c.media { enabled = true };
      discovery = record { mdns = true };
    }
    else c

unfoldable pub normalize : Config → Config
normalize c = softatem_profile (legacy_mdns c)

pub record Env : Type 0 where
  pub config_var : Option Text
  pub atem_var : Option Text
  pub bind_var : Option Text
  pub mdns_var : Option Text
  pub log_var : Option Text
  pub softatem_var : Option Text

pub record Cli : Type 0 where
  pub config : Option Text
  pub atem : Option Text
  pub bind : Option SocketAddr
  pub mdns : Option Bool
  pub softatem : Option Bool
  pub log : Option Text

infixl 5 ◌>>=◌
abbrev pub ◌>>=◌ {ℓ κ} : {A : Type ℓ} {B : Type κ} → Option A → (A → Option B) → Option B
none >>= f = none
some a >>= f = f a

-- `if let Some(v) = o { .. }`
abbrev pub if_some {ℓ κ} : {A : Type ℓ} {B : Type κ} → Option A → (A → B → B) → B → B
if_some none f b = b
if_some (some a) f b = f a b

abbrev to_ascii_lowercase : Text → Text
to_ascii_lowercase = map (λ c. if leb b'A' c && leb c b'Z' then c + 32 else c)

unfoldable pub is_truthy : Text → Bool
unfolding bytes_eq
is_truthy v =
    any (bytes_eq (to_ascii_lowercase v))
      ((b'1' ∷ []) ∷ (b't' ∷ b'r' ∷ b'u' ∷ b'e' ∷ []) ∷ (b'y' ∷ b'e' ∷ b's' ∷ []) ∷ [])

-- What the source takes from `std` and from the crate `toml`; `none` is an error.
pub record Outside : Type 0 where
  pub parse_addr : Text → Option SocketAddr
  pub exists_file : Text → Bool
  pub read_to_string : Text → Option Text
  pub parse_toml : Text → Option Config
  pub any_9910 : SocketAddr

module _ (o : Outside) where
  abbrev pub from_file : Text → Option Config
  from_file path =
      if o.exists_file path
      then (o.read_to_string path >>= o.parse_toml)
      else some (default_config o.any_9910)

  unfoldable pub base_config : Option Text → Env → Option Config
  base_config (some path) env = from_file path
  base_config none env = elim env.config_var [
    | some path ↦ from_file path
    | none ↦ some (default_config o.any_9910)
  ]

  abbrev pub apply_bind : Option Text → Config → Option Config
  apply_bind none c = some c
  apply_bind (some v) c = o.parse_addr v >>= λ addr. some (record c { bind = addr })

  abbrev pub apply_flags : Env → Config → Config
  apply_flags env c =
      if_some env.softatem_var (λ v c. record c { compat = record { softatem = is_truthy v } })
        (if_some env.log_var (λ v c. record c { log = v })
          (if_some env.mdns_var (λ v c. record c { mdns = is_truthy v }) c))

  unfoldable pub apply_env : Env → Config → Option Config
  apply_env env c =
      apply_bind env.bind_var (if_some env.atem_var (λ v c. record c { atem = v }) c) >>= λ c.
      some (apply_flags env c)

  unfoldable pub apply_args :
      Option Text → Option SocketAddr → Option Bool → Option Text → Config → Config
  apply_args atem bind mdns log c =
      if_some log (λ v c. record c { log = v })
        (if_some mdns (λ v c. record c { mdns = v })
          (if_some bind (λ v c. record c { bind = v })
            (if_some atem (λ v c. record c { atem = v }) c)))

  unfoldable pub load :
      Option Text
      → Option Text
      → Option SocketAddr
      → Option Bool
      → Option Text
      → Env
      → Option Config
  load config_path atem bind mdns log env = base_config config_path env >>= λ c.
      apply_env env c >>= λ c. some (normalize (apply_args atem bind mdns log c))

  -- `load_cfg` of main.rs: the flag `--softatem` comes after the rest.
  unfoldable pub load_cfg : Cli → Env → Option Config
  load_cfg cli env = load cli.config cli.atem cli.bind cli.mdns cli.log env >>= λ c.
      some
        (if_some cli.softatem (λ v c. normalize (record c { compat = record { softatem = v } })) c)

  -- `none` is the error of the address parser.
  unfoldable pub atem_addr : Config → Option SocketAddr
  atem_addr c =
      if any (λ k. k == b':') c.atem
      then o.parse_addr c.atem
      else o.parse_addr (c.atem ++ b':' ∷ decimal 5 atem_udp_port)
