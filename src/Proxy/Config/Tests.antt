-- ===== src/Proxy/Config/Tests.antt =====
-- The theorems on the configuration, with a file system that has one file, which says SoftAtem.
use atemproxy.Prelude.{◌≡◌, refl, true, false, none, some, [], ◌∷◌}
use atemproxy.Proxy.Config.{
  Config, Outside, Env, Cli, default_config, normalize, load, load_cfg, base_config, apply_env,
  apply_args,
}
use atemproxy.Proxy.Config.Profile.{HasProfile, load_cfg-HasProfile, load_cfg-flag_keeps_profile}

abbrev file : Config
file = record (default_config 0) { compat = record { softatem = true } }

abbrev outside : Outside
outside = record {
  parse_addr = λ v. none;
  exists_file = λ path. true;
  read_to_string = λ path. some [];
  parse_toml = λ text. some file;
  any_9910 = 0;
}

abbrev env : Env
env = record {
  config_var = none;
  atem_var = none;
  bind_var = none;
  mdns_var = none;
  log_var = none;
  softatem_var = none;
}

abbrev cli : Cli
cli = record {
  config = some (b'c' ∷ []);
  atem = none;
  bind = none;
  mdns = none;
  softatem = none;
  log = none;
}

abbrev softatem : Config
softatem = normalize file

loaded : load outside (some (b'c' ∷ [])) none none none none env ≡ some softatem
unfolding load base_config apply_env apply_args
loaded = refl

loaded_cfg : load_cfg outside cli env ≡ some softatem
unfolding load_cfg load base_config apply_env apply_args
loaded_cfg = refl

says_softatem : softatem.compat.softatem ≡ true
unfolding normalize default_config
says_softatem = refl

load_cfg-HasProfile_example : HasProfile softatem
load_cfg-HasProfile_example = load_cfg-HasProfile outside cli env softatem loaded_cfg says_softatem

load_cfg-flag_keeps_profile_example :
    (c : Config) × (load_cfg outside (record cli { softatem = some false }) env ≡ some c)
    × (c.compat.softatem ≡ false)
    × HasProfile c
load_cfg-flag_keeps_profile_example =
    load_cfg-flag_keeps_profile outside (record cli { softatem = some false }) env softatem loaded
      says_softatem refl

from_the_file : base_config outside (some (b'c' ∷ [])) env ≡ some file
unfolding base_config
from_the_file = refl
