-- ===== src/Proxy/Main/Manager.antt =====
-- The calls of main.rs to the service manager that uninstall, start and stop the service, and the
-- dispatcher that runs it. What the manager answers is an argument.
use atemproxy.Prelude.{◌≡◌, ◌↔◌, Bool, true, false, not, List, [], ◌∷◌, if◌then◌else◌, arith}
use atemproxy.Prelude.Text.{Text}
use atemproxy.Proxy.Main.{service_name}

pub data ServiceAccess : Type 0 where
  delete_access stop_access start_access : ServiceAccess

-- A call to the service manager, or to the service that it has opened.
pub data Call : Type 0 where
  connect : Call
  open_service : Text → List ServiceAccess → Call
  stop_service delete_service start_service : Call

-- Whether a call succeeds.
abbrev pub Answers : Type 0
Answers = Call → Bool

abbrev pub opens_with : List ServiceAccess → Call
opens_with access = open_service service_name access

-- The calls of `local_computer` and `open_service`, and then those of `calls` where both succeed.
abbrev pub on_service : Answers → List ServiceAccess → List Call × Bool → List Call × Bool
on_service answers access rest =
    if not (answers connect)
    then (connect ∷ [], false)
    else (if answers (opens_with access)
        then (connect ∷ opens_with access ∷ rest.0, rest.1)
        else (connect ∷ opens_with access ∷ [], false))

-- The calls made, in order, and whether the function returns `Ok`. What `stop` answers is ignored.
unfoldable pub uninstall : Answers → List Call × Bool
uninstall answers =
    on_service answers (delete_access ∷ stop_access ∷ [])
      (stop_service ∷ delete_service ∷ [], answers delete_service)

unfoldable pub start : Answers → List Call × Bool
start answers = on_service answers (start_access ∷ []) (start_service ∷ [], answers start_service)

unfoldable pub stop : Answers → List Call × Bool
stop answers = on_service answers (stop_access ∷ []) (stop_service ∷ [], answers stop_service)

-- The service is uninstalled just when the manager is there, opens the service and deletes it,
-- whether or not it could be stopped before.
uninstall-succeeds :
    (answers : Answers)
    → ((uninstall answers).1 ≡ true) ↔ (
        (answers connect ≡ true)
        × (answers (opens_with (delete_access ∷ stop_access ∷ [])) ≡ true)
        × (answers delete_service ≡ true))
unfolding uninstall
uninstall-succeeds answers = ground arith
