-- ===== src/Proxy/Main/Tests.antt =====
-- The command line and the service of main.rs on particular inputs.
use atemproxy.Prelude.{true, false, none, some, List, [], ◌∷◌}
use atemproxy.Prelude.Text.{Text, codes}
use atemproxy.Proxy.Config.{
  Config, Env, Cli, default_config, base_config, apply_env, apply_args, load, normalize,
}
use atemproxy.Proxy.Config
use atemproxy.Proxy.Main.{System, Change, created_dirs, wrote, created, service_info}

-- No file exists, and nothing parses.
abbrev no_files : Config.Outside
no_files = record {
  parse_addr = λ text. none;
  exists_file = λ path. false;
  read_to_string = λ path. none;
  parse_toml = λ text. none;
  any_9910 = 0;
}

abbrev no_env : Env
no_env = record {
  config_var = none;
  atem_var = none;
  bind_var = none;
  mdns_var = none;
  log_var = none;
  softatem_var = none;
}

abbrev proxy_toml : Text
proxy_toml = codes "proxy.toml"

abbrev service_cli : Cli
service_cli = record {
  config = some proxy_toml;
  atem = none;
  bind = none;
  mdns = none;
  softatem = none;
  log = none;
}

-- A host on which every step succeeds.
abbrev host : System
host = record {
  manager = true;
  current_exe = some (codes "atem-proxy.exe");
  default_windows_config_path = codes "default.toml";
  default_log_path = codes "atem-proxy.log";
  parent = λ path. some (codes "config");
  creates_dirs = λ dir. true;
  exists_file = λ path. false;
  to_toml = λ cfg. some (codes "log");
  writes = λ path text. true;
  creates = λ info. true;
  describes = true;
  registers_handler = true;
  reports = λ state. true;
  runtime = true;
  opens = λ path. true;
}

abbrev changed : List Change
changed =
    created_dirs (codes "config")
    ∷ wrote proxy_toml (codes "log")
    ∷ created (service_info (codes "atem-proxy.exe") proxy_toml)
    ∷ []
