-- ===== src/Controller/Account.antt =====
-- internal/controller/account_controller.go
use account_operator.Base.{String, Bool, true, false, List, [], ◌∷◌, ◌++◌}
use account_operator.Config.{OperatorConfig}
use account_operator.Platform.{Result, ok}
use account_operator.Subroutines.Construct.{
  SetupError, NewRateLimiter, create_limiter, wrap, ◌>>=◌, new_workspace_type_subroutine,
  new_workspace_subroutine, new_manage_account_info_subroutine, new_workspace_ready_subroutine,
}
use account_operator.Controller.{
  Subroutine, workspace_type, workspace, manage_account_info, workspace_ready, Lifecycle,
  ControllerSetup, ServiceConfig,
}

abbrev pub account_reconciler_name : String
account_reconciler_name = "AccountReconciler"

pub record AccountReconciler (M L : Type 0) : Type 0 where
  pub cfg : OperatorConfig
  pub lifecycle : Lifecycle M L
  pub rate_limiter : L
  pub mgr : M

module _ {M L E : Type 0} (new_limiter : NewRateLimiter E L) (mgr : M) where
  -- `if enabled { sub, err := New(…); if err != nil { return …%w }; subs = append(subs, sub) }`
  abbrev append_enabled :
      {A : Type 0}
      → Bool
      → String
      → (A → Subroutine M L)
      → Result (SetupError E) A
      → List (Subroutine M L)
      → Result (SetupError E) (List (Subroutine M L))
  append_enabled true text to_subroutine created subs = do
    sub ← wrap text created
    ok (subs ++ to_subroutine sub ∷ [])
  append_enabled false text to_subroutine created subs = ok subs

  -- `server_ca` is the CA data of the local manager's configuration.
  unfoldable pub new_account_reconciler :
      String → OperatorConfig → Result (SetupError E) (AccountReconciler M L)
  new_account_reconciler server_ca cfg = do
    subs1 ←
        append_enabled cfg.subroutines.workspace_type "" workspace_type
          (ok (new_workspace_type_subroutine mgr)) []
    subs2 ←
        append_enabled cfg.subroutines.workspace "creating Workspace subroutine" workspace
          (new_workspace_subroutine new_limiter mgr) subs1
    subs3 ←
        append_enabled cfg.subroutines.account_info "creating ManageAccountInfo subroutine"
          manage_account_info (new_manage_account_info_subroutine new_limiter mgr server_ca) subs2
    subs4 ←
        append_enabled cfg.subroutines.workspace_ready "creating WorkspaceReady subroutine"
          workspace_ready (new_workspace_ready_subroutine new_limiter mgr) subs3
    rl ← create_limiter new_limiter []
    ok (record {
      cfg = cfg;
      lifecycle = record {
        mgr = mgr;
        name = account_reconciler_name;
        kind = "Account";
        subroutines = subs4;
        conditions = true;
      };
      rate_limiter = rl;
      mgr = mgr;
    })

module _ {M L Pred R : Type 0} (debug_predicate : String → Pred)
    (complete : ControllerSetup M L Pred → R) where
  -- `complete` is the builder's `Complete(r)`.
  unfoldable pub setup_with_manager : AccountReconciler M L → M → ServiceConfig → List Pred → R
  setup_with_manager r mgr cfg event_predicates = complete (record {
    mgr = mgr;
    name = account_reconciler_name;
    kind = "Account";
    max_concurrent_reconciles = cfg.max_concurrent_reconciles;
    rate_limiter = r.rate_limiter;
    event_filter = debug_predicate cfg.debug_label_value ∷ [] ++ event_predicates;
  })
