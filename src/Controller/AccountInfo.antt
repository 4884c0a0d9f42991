-- ===== src/Controller/AccountInfo.antt =====
-- internal/controller/accountinfo_controller.go
use account_operator.Base.{String, Bool, true, false, Option, List, [], ◌∷◌, ◌++◌}
use account_operator.Config.{OperatorConfig}
use account_operator.Exec.{Exec, Error}
use account_operator.Platform.{Platform, Result, ok}
use account_operator.Subroutines.Construct.{
  SetupError, NewRateLimiter, create_limiter, wrap, ◌>>=◌, new_finalize_account_info_subroutine,
}
use account_operator.Controller.{
  Request, ReconcileResult, Subroutine, finalize_account_info, Lifecycle, ControllerSetup,
  ServiceConfig,
}

abbrev pub account_info_reconciler_name : String
account_info_reconciler_name = "AccountInfoReconciler"

pub record AccountInfoReconciler (M L : Type 0) : Type 0 where
  pub cfg : OperatorConfig
  pub lifecycle : Lifecycle M L
  pub rate_limiter : L

module _ {M L E : Type 0} (new_limiter : NewRateLimiter E L) (mgr : M) where
  abbrev account_info_subroutines : Bool → Result (SetupError E) (List (Subroutine M L))
  account_info_subroutines true = do
    sub ←
        wrap "creating FinalizeAccountInfo subroutine"
          (new_finalize_account_info_subroutine new_limiter mgr)
    ok (finalize_account_info sub ∷ [])
  account_info_subroutines false = ok []

  unfoldable pub new_account_info_reconciler :
      OperatorConfig → Result (SetupError E) (AccountInfoReconciler M L)
  new_account_info_reconciler cfg = do
    subs ← account_info_subroutines cfg.controllers.account_info
    rl ← create_limiter new_limiter []
    ok (record {
      cfg = cfg;
      lifecycle = record {
        mgr = mgr;
        name = account_info_reconciler_name;
        kind = "AccountInfo";
        subroutines = subs;
        conditions = false;
      };
      rate_limiter = rl;
    })

module _ {M L Pred R : Type 0} (debug_predicate : String → Pred)
    (complete : ControllerSetup M L Pred → R) where
  -- `complete` is the builder's `Complete(r)`.
  unfoldable pub setup_with_manager : AccountInfoReconciler M L → M → ServiceConfig → List Pred → R
  setup_with_manager r mgr cfg event_predicates = complete (record {
    mgr = mgr;
    name = account_info_reconciler_name;
    kind = "AccountInfo";
    max_concurrent_reconciles = cfg.max_concurrent_reconciles;
    rate_limiter = r.rate_limiter;
    event_filter = debug_predicate cfg.debug_label_value ∷ [] ++ event_predicates;
  })

-- `lifecycle` is the lifecycle's `Reconcile`.
unfoldable pub reconcile :
    (P : Platform)
    → (Request → Exec P (ReconcileResult × Option (Error P.ApiError)))
    → Request
    → Exec P (ReconcileResult × Option (Error P.ApiError))
reconcile P lifecycle req = lifecycle req
