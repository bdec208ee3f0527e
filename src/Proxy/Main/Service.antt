-- ===== src/Proxy/Main/Service.antt =====
-- The Windows service of main.rs: how it is installed, and how it runs.
use atemproxy.Prelude.{◌≡◌, true, ◌⊎◌, none, some, List, [], ◌∷◌, ◌++◌}
use atemproxy.Prelude.Text.{Text}
use atemproxy.Proxy.Config.{Config, default_config, Env, Cli, load}
use atemproxy.Proxy.Config
use atemproxy.Proxy.Main.{
  run_service, service, ServiceAction, path_or, main, System, Change, wrote, created, service_info,
  create_parent, service_config,
}

-- What a successful installation leaves.
pub record IsInstalled (o : Config.Outside) (s : System) (path : Text) (changes : List Change)
    : Type 0 where
  pub exe : Text
  pub before : List Change
  pub changed : changes ≡ (create_parent s path ++ before) ++ created (service_info exe path) ∷ []
  pub has_config :
      ((s.exists_file path ≡ true) × (before ≡ []))
      ⊎ ((example : Text) × (s.to_toml (default_config o.any_9910) ≡ some example)
          × (before ≡ wrote path example ∷ []))

-- Where a service run takes its configuration from.
pub record Runs (o : Config.Outside) (s : System) (cli : Cli) (env : Env) (path : Text)
    : Type 0 where
  pub job_env : Env
  pub job : main o (some (service ServiceAction.run)) cli env ≡ some (run_service job_env)
  pub loads :
      ((load o (some path) none none none none job_env ≡ none)
        × (service_config o s job_env ≡ none))
      ⊎ ((cfg : Config) × (load o (some path) none none none none job_env ≡ some cfg)
          × (service_config o s job_env
              ≡ some (record cfg { log_file = some (path_or cfg.log_file s.default_log_path) })))
