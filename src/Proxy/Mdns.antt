-- ===== src/Proxy/Mdns.antt =====
-- crates/atem-proxy/src/mdns.rs: the announcement of the proxy. The mDNS daemon, the host's name and
-- the host's interfaces are arguments.
pub mod Trimming
pub mod Instance
pub mod Waiting
pub mod HostName
mod Tests
use atemproxy.Prelude.{
  ℕ, zero, suc, ◌+◌, Bool, true, false, not, ◌&&◌, ◌||◌, Option, none, some, List, [], ◌∷◌, ◌++◌,
  ltb, leb, ◌==◌, if◌then◌else◌, is_empty,
}
use atemproxy.Prelude.Utf8.{between, is_control, is_whitespace}
use atemproxy.Prelude.Text.{Text, codes, ends_with, trim_matches, decimal}

abbrev pub service_type : Text
service_type = codes "_blackmagic._tcp.local."

-- One round of the announcer: whether it is cancelled, and what it reads of the cache.
pub record Reading : Type 0 where
  pub is_cancelled : Bool
  pub is_ready : Bool
  pub product : Option Text
  pub version : Option (ℕ × ℕ)

abbrev pub is_some : {A : Type 0} → Option A → Bool
is_some none = false
is_some (some a) = true

abbrev pub informs : Reading → Bool
informs r = is_some r.product || is_some r.version

-- The loop of `spawn_mdns_announcer`, `none` where it returns: so many rounds from the round `i` on,
-- and the product and the version read so far.
unfoldable pub wait_rounds :
    ℕ → (ℕ → Reading) → ℕ → Option Text → Option (ℕ × ℕ) → Option (Option Text × Option (ℕ × ℕ))
wait_rounds zero at i product version = some (product, version)
wait_rounds (suc n) at i product version =
    let r = at i in
    let product' = if r.is_ready then r.product else product in
    let version' = if r.is_ready then r.version else version in
    let rest = wait_rounds n at (suc i) product' version' in
    if r.is_cancelled
    then none
    else (if r.is_ready && informs r then some (product', version') else rest)

unfoldable pub wait_for_product : (ℕ → Reading) → Option (Option Text × Option (ℕ × ℕ))
wait_for_product at = wait_rounds 100 at 0 none none

unfoldable pub product_name_or_default : Option Text → Text
product_name_or_default none = codes "ATEM Proxy"
product_name_or_default (some s) = if is_empty s then codes "ATEM Proxy" else s

-- The parts are `u16`s, which five digits hold.
unfoldable pub release_or_default : Option (ℕ × ℕ) → Text
release_or_default none = codes "0.0"
release_or_default (some (maj, min)) = decimal 5 maj ++ b'.' ∷ decimal 5 min

abbrev pub is_ascii_alphanumeric : ℕ → Bool
is_ascii_alphanumeric c = between b'0' b'9' c || between b'A' b'Z' c || between b'a' b'z' c

abbrev pub dash : ℕ
dash = b'-'

pub record Sanitized : Type 0 where
  pub s : Text
  pub prev_dash : Bool

abbrev pub push_dash : Sanitized → Sanitized
push_dash st =
    if not st.prev_dash && not (is_empty st.s)
    then record { s = st.s ++ dash ∷ []; prev_dash = true }
    else st

-- The body of the loop of `sanitize_instance_name`; its last two branches do the same.
unfoldable pub sanitize_char : ℕ → Sanitized → Sanitized
sanitize_char c st =
    if is_ascii_alphanumeric c || c == b' '
    then record { s = st.s ++ c ∷ []; prev_dash = false }
    else (if c == dash || is_control c || leb 0x80 c then push_dash st else push_dash st)

unfoldable pub sanitize_chars : Text → Sanitized → Sanitized
sanitize_chars [] st = st
sanitize_chars (c ∷ cs) st = sanitize_chars cs (sanitize_char c st)

abbrev pub is_dash : ℕ → Bool
is_dash c = c == dash

unfoldable pub sanitize_instance_name : Text → Text
sanitize_instance_name name =
    let s =
      trim_matches is_dash (
        trim_matches is_whitespace
          (sanitize_chars name (record { s = []; prev_dash = false })).s) in
    if is_empty s then codes "ATEM-Proxy" else s ++ codes " (Proxy)"

pub data IpAddr : Type 0 where
  v4 v6 : ℕ → IpAddr

pub record Interface : Type 0 where
  pub is_loopback : Bool
  pub ip : IpAddr

-- `find_map` over the interfaces that are no loopback.
unfoldable pub first_v4 : List Interface → Option IpAddr
first_v4 [] = none
first_v4 (a ∷ addrs) =
    let rest = first_v4 addrs in
    if a.is_loopback then rest else elim a.ip [ v4 n ↦ some (v4 n) | v6 _ ↦ rest ]

pub record ServiceInfo : Type 0 where
  pub service_type : Text
  pub instance_name : Text
  pub host_name : Text
  pub ip : IpAddr
  pub port : ℕ
  pub props : List (Text × Text)

-- What the source takes from `mdns-sd`, `hostname` and `if-addrs`; `none` and `false` are errors.
pub record Outside : Type 0 where
  pub has_daemon : Bool
  pub get_if_addrs : Option (List Interface)
  pub hostname : Option Text
  pub show_ip : IpAddr → Text
  pub accepts : ServiceInfo → Bool
  pub registers : ServiceInfo → Bool

unfoldable pub local_ipv4 : Outside → Option IpAddr
local_ipv4 o = elim o.get_if_addrs [ none ↦ none | some addrs ↦ first_v4 addrs ]

abbrev pub host_or_default : Option Text → Text
host_or_default none = codes "atem-proxy"
host_or_default (some host) = host

unfoldable pub host_name_of : Text → Text
host_name_of host =
    if ends_with (codes ".local.") host
    then host
    else (if ends_with (codes ".local") host then host ++ codes "." else host ++ codes ".local.")

abbrev pub props_of : Outside → Text → Text → IpAddr → List (Text × Text)
props_of o product_name release_version ip =
    (codes "txtvers", codes "1")
    ∷ (codes "name", product_name)
    ∷ (codes "class", codes "AtemSwitcher")
    ∷ (codes "protocol version", codes "0.0")
    ∷ (codes "release version", release_version)
    ∷ (codes "device version", codes "0")
    ∷ (codes "unique id", codes "atem-proxy-" ++ o.show_ip ip)
    ∷ (codes "internal version", codes "atem-proxy")
    ∷ []

-- The service that is registered, if no step fails.
unfoldable pub register_service : Outside → Text → Text → ℕ → Option ServiceInfo
register_service o product_name release_version port =
    if not o.has_daemon then none else elim (local_ipv4 o) [
      | none ↦ none
      | some ip ↦
          let service : ServiceInfo = record {
            service_type = service_type;
            instance_name = sanitize_instance_name product_name;
            host_name = host_name_of (host_or_default o.hostname);
            ip = ip;
            port = port;
            props = props_of o product_name release_version ip;
          } in
          if o.accepts service && o.registers service then some service else none
    ]

-- The task of `spawn_mdns_announcer`: the service that it announces, if it does.
unfoldable pub spawn_mdns_announcer : Outside → (ℕ → Reading) → ℕ → Option ServiceInfo
spawn_mdns_announcer o at port = elim (wait_for_product at) [
  | none ↦ none
  | some (product, version) ↦
      register_service o (product_name_or_default product) (release_or_default version) port
]
