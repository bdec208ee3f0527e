-- ===== src/Proxy/Main.antt =====
-- crates/atem-proxy/src/main.rs: the command line and the Windows service. The file system, the
-- service manager, the runtime and the proxy itself are arguments; what is printed is left out.
pub mod Service
pub mod Manager
mod Tests
use atemproxy.Prelude.{
  ℕ, Bool, true, false, not, ◌&&◌, Option, none, some, List, [], ◌∷◌, ◌++◌, if◌then◌else◌,
}
use atemproxy.Prelude.Text.{Text, codes}
use atemproxy.Proxy.Config.{Config, default_config, Env, Cli, load, load_cfg}
use atemproxy.Proxy.Config

pub data ServiceAction : Type 0 where
  install : Option Text → ServiceAction
  uninstall start stop run : ServiceAction

pub data Commands : Type 0 where
  run : Commands
  service : ServiceAction → Commands

abbrev pub or_else : {A : Type 0} → Option A → Option A → Option A
or_else none b = b
or_else (some a) b = some a

abbrev pub path_or : Option Text → Text → Text
path_or none path = path
path_or (some path) default_path = path

-- What `main` goes on to do. A service run takes its path from the environment, which `--config`
-- has set.
pub data Job : Type 0 where
  run_proxy : Config → Job
  install_service : Option Text → Job
  uninstall_service start_service stop_service : Job
  run_service : Env → Job

unfoldable pub main : Config.Outside → Option Commands → Cli → Env → Option Job
main o none cli env = elim (load_cfg o cli env) [
  | none ↦ none
  | some cfg ↦ some (Job.run_proxy cfg)
]
main o (some Commands.run) cli env = elim (load_cfg o cli env) [
  | none ↦ none
  | some cfg ↦ some (Job.run_proxy cfg)
]
main o (some (service (install config))) cli env =
    some (install_service (or_else config cli.config))
main o (some (service uninstall)) cli env = some uninstall_service
main o (some (service start)) cli env = some start_service
main o (some (service stop)) cli env = some stop_service
main o (some (service ServiceAction.run)) cli env =
    some (run_service (record env { config_var = or_else cli.config env.config_var }))

-- The handler of `ctrlc_cancel`: the flag, and whether it cancels.
unfoldable pub ctrlc_cancel : Bool → Bool × Bool
ctrlc_cancel flag = (true, not flag)

-- Where `init_logging` writes.
pub data Writer : Type 0 where
  log_file : Text → Writer
  stdout : Writer

unfoldable pub init_logging : (Text → Bool) → Option Text → Writer
init_logging opens none = stdout
init_logging opens (some path) = if opens path then log_file path else stdout

-- Of the service manager's kinds of service, starts and error controls, those the source names.
pub data ServiceType : Type 0 where
  own_process : ServiceType

pub data ServiceStartType : Type 0 where
  auto_start : ServiceStartType

pub data ServiceErrorControl : Type 0 where
  normal : ServiceErrorControl

pub record ServiceInfo : Type 0 where
  pub name : Text
  pub display_name : Text
  pub service_type : ServiceType
  pub start_type : ServiceStartType
  pub error_control : ServiceErrorControl
  pub executable_path : Text
  pub launch_arguments : List Text
  pub dependencies : List Text
  pub account_name : Option Text
  pub account_password : Option Text

abbrev pub service_name : Text
service_name = codes "AtemProxy"

abbrev pub service_display : Text
service_display = codes "ATEM Proxy"

pub data ServiceState : Type 0 where
  running stopped : ServiceState

-- What the source takes from `std`, `toml` and `windows-service`; `none` and `false` are errors.
pub record System : Type 0 where
  pub manager : Bool
  pub current_exe : Option Text
  pub default_windows_config_path : Text
  pub default_log_path : Text
  pub parent : Text → Option Text
  pub creates_dirs : Text → Bool
  pub exists_file : Text → Bool
  pub to_toml : Config → Option Text
  pub writes : Text → Text → Bool
  pub creates : ServiceInfo → Bool
  pub describes : Bool
  pub registers_handler : Bool
  pub reports : ServiceState → Bool
  pub runtime : Bool
  pub opens : Text → Bool

-- What `install` changes, in order, and whether it succeeds.
pub data Change : Type 0 where
  created_dirs : Text → Change
  wrote : Text → Text → Change
  created : ServiceInfo → Change

abbrev pub service_info : Text → Text → ServiceInfo
service_info exe cfg_path = record {
  name = service_name;
  display_name = service_display;
  service_type = own_process;
  start_type = auto_start;
  error_control = normal;
  executable_path = exe;
  launch_arguments = codes "service" ∷ codes "run" ∷ codes "--config" ∷ cfg_path ∷ [];
  dependencies = [];
  account_name = none;
  account_password = none;
}

-- The directories above the configuration; that they cannot be created is no error.
unfoldable pub create_parent : System → Text → List Change
create_parent s path = elim (s.parent path) [
  | none ↦ []
  | some dir ↦ if s.creates_dirs dir then created_dirs dir ∷ [] else []
]

-- The part of `install` that leaves a configuration at the path, the default one if there is none.
unfoldable pub write_default : Config.Outside → System → Text → Option (List Change)
write_default o s path =
    if s.exists_file path then some [] else elim (s.to_toml (default_config o.any_9910)) [
      | none ↦ none
      | some example ↦ if s.writes path example then some (wrote path example ∷ []) else none
    ]

abbrev pub create : System → Text → Text → List Change → List Change × Bool
create s exe path changes =
    if s.creates (service_info exe path)
    then (changes ++ created (service_info exe path) ∷ [], s.describes)
    else (changes, false)

unfoldable pub install_at : Config.Outside → System → Text → Text → List Change × Bool
install_at o s exe path = elim (write_default o s path) [
  | none ↦ (create_parent s path, false)
  | some changes ↦ create s exe path (create_parent s path ++ changes)
]

unfoldable pub install_on : Config.Outside → System → Option Text → List Change × Bool
install_on o s config = if not s.manager then ([], false) else elim s.current_exe [
  | none ↦ ([], false)
  | some exe ↦ install_at o s exe (path_or config s.default_windows_config_path)
]

pub data ServiceControl : Type 0 where
  stop_control shutdown interrogate other : ServiceControl

-- `event_handler`: whether it cancels, and whether it knows the control.
unfoldable pub event_handler : ServiceControl → Bool × Bool
event_handler stop_control = (true, true)
event_handler shutdown = (true, true)
event_handler interrogate = (false, true)
event_handler other = (false, false)

-- The configuration with which `run_service_body` runs the proxy.
abbrev pub with_log : System → Config → Config
with_log s cfg = elim cfg.log_file [
  | none ↦ record cfg { log_file = some s.default_log_path }
  | some _ ↦ cfg
]

unfoldable pub service_config : Config.Outside → System → Env → Option Config
service_config o s env =
    elim (load o (some (path_or env.config_var s.default_windows_config_path)) none none none none
      env) [ none ↦ none | some cfg ↦ some (with_log s cfg) ]

-- The states that `run_service_body` reports to the service manager, and its result. `proxy` is the
-- result of `run_proxy`.
unfoldable pub run_service_body :
    Config.Outside → System → (Config → Bool) → Env → List ServiceState × Bool
run_service_body o s proxy env =
    if not (s.registers_handler && s.reports running)
    then ([], false)
    else elim (service_config o s env) [
      | none ↦ (running ∷ [], false)
      | some cfg ↦
          if s.runtime
          then (if s.reports stopped
              then (running ∷ stopped ∷ [], proxy cfg)
              else (running ∷ [], false))
          else (running ∷ [], false)
    ]
