-- ===== src/Examples/Handling.antt =====
-- The handlers of the controllers with the settings of the start, and the
-- initialization of the program.
use account_operator.Base.{
  String, ◌≡◌, refl, ◌⊎◌, true, false, none, some, List, [], ◌∷◌, map, All, distinct,
}
use account_operator.Meta.{Ref}
use account_operator.Platform.{ok}
use account_operator.Platform.Memory.{memory, memory-WorkspaceLaws}
use account_operator.Api.Account.{Account}
use account_operator.Api.AccountInfo.{AccountInfo}
use account_operator.Api.Scheme.{Kind}
use account_operator.ClusteredName.{account, account_info}
use account_operator.Config.{new_operator_config}
use account_operator.Controller.{Subroutine, finalize_account_info, workspace}
use account_operator.Controller.AccountInfo.{AccountInfoReconciler, new_account_info_reconciler}
use account_operator.Controller.Dispatch.{kind_of, get_name, all_finalizers}
use account_operator.Controller.Distinct.{are_distinct, subroutines_distinct}
use account_operator.Controller.Effects.{Leaves, handlers-Preserves}
use account_operator.Subroutines.Workspace
use account_operator.Subroutines.Workspace.Effects.{BlindToWorkspace}
use account_operator.Controller.Handlers.{IsSafe, handlers-IsSafe}
use account_operator.Operator.Root.{RootLibraries, init}
use account_operator.Operator.Root.Init.{
  Complete, Stopped, four_groups, four_registrations, init_ends,
}
use account_operator.Subroutines.Construct.{LimiterOption, new_finalize_account_info_subroutine}
use account_operator.Examples.{acme, at, state, ready_world}
use account_operator.Examples.Operating.{new_limiter, reconciler, reconciler_made}

abbrev info_reconciler : AccountInfoReconciler String (List LimiterOption)
info_reconciler = record {
  cfg = new_operator_config;
  lifecycle = record {
    mgr = "mgr";
    name = "AccountInfoReconciler";
    kind = "AccountInfo";
    subroutines = finalize_account_info (record { mgr = "mgr"; limiter = [] }) ∷ [];
    conditions = false;
  };
  rate_limiter = [];
}

info_reconciler_made :
    new_account_info_reconciler new_limiter "mgr" new_operator_config ≡ ok info_reconciler
unfolding new_account_info_reconciler new_finalize_account_info_subroutine
info_reconciler_made = refl

handlers-IsSafe_example :
    (kind_of (account acme) ≡ "Account"
      → All
          (IsSafe memory (at "orgs") (account acme) (state ready_world))
          reconciler.lifecycle.subroutines)
    × (kind_of (account acme) ≡ "AccountInfo"
        → All
            (IsSafe memory (at "orgs") (account acme) (state ready_world))
            info_reconciler.lifecycle.subroutines)
handlers-IsSafe_example =
    handlers-IsSafe new_limiter "mgr" new_operator_config memory (at "orgs") "orgs" refl
      (state ready_world) "ca" reconciler_made info_reconciler_made (account acme)

subroutines_distinct_example :
    (distinct (map get_name reconciler.lifecycle.subroutines) ≡ true)
    × (distinct (map get_name info_reconciler.lifecycle.subroutines) ≡ true)
    × ((inst : Ref Account)
        → are_distinct (all_finalizers reconciler.lifecycle.subroutines (account inst)) ≡ true)
    × ((inst : Ref AccountInfo)
        → are_distinct (all_finalizers info_reconciler.lifecycle.subroutines (account_info inst))
          ≡ true)
subroutines_distinct_example =
    subroutines_distinct new_limiter "mgr" "ca" new_operator_config reconciler_made
      info_reconciler_made

abbrev workspace_subroutine : Subroutine String (List LimiterOption)
workspace_subroutine = workspace (record { mgr = "mgr"; limiter = [] })

acme-BlindToWorkspace : BlindToWorkspace memory (λ w. w.account_infos) "acme"
acme-BlindToWorkspace = record { updated = λ c f w. refl; deleted = λ c w. refl }

handlers-Preserves_example :
    Leaves memory (λ w. w.account_infos) (account acme) (some (Workspace.process memory))
    × Leaves memory (λ w. w.account_infos) (account acme) (some (Workspace.finalize memory))
handlers-Preserves_example =
    handlers-Preserves memory (λ w. w.account_infos) memory-WorkspaceLaws workspace_subroutine
      (account acme) acme-BlindToWorkspace

-- Every group can be added. A builder is the list of its kinds, the latest first.
abbrev root_libraries : RootLibraries
root_libraries = record {
  E = String;
  builder = record { Builder = List (List Kind); new_builder = λ _. []; register = λ ks b. ks ∷ b };
  add_to_scheme = λ _. none;
  Common = String;
  new_default_config = "common";
  log_config = λ _. record { level = "info"; no_json = false };
  new_logger = λ _. none;
  error_text = λ e. e;
}

init_ends_example :
    Complete root_libraries
      (four_groups root_libraries)
      (four_registrations root_libraries)
      (init root_libraries)
    ⊎ Stopped root_libraries (four_groups root_libraries) (init root_libraries)
init_ends_example = init_ends root_libraries
