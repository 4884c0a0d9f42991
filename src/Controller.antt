-- ===== src/Controller.antt =====
-- internal/controller: what the two controllers are built from, and what one reconciliation does.
-- The lifecycle library, which runs the subroutines of a controller on the requested object, and
-- the controller builder are parameters.
pub mod Account
pub mod AccountInfo
pub mod Dispatch
pub mod Effects
pub mod Runs
pub mod Deletion
pub mod Handlers
pub mod Distinct
pub mod Order
pub mod Reconcile
use account_operator.Base.{ℕ, String, Bool, List, [], ◌∷◌, ◌++◌, Option}
use account_operator.Base.Int.{ℤ}
use account_operator.Config.{OperatorConfig}
use account_operator.Platform.{Result}
use account_operator.Subroutines.Construct.{
  WorkspaceTypeSubroutine, WorkspaceSubroutine, ManageAccountInfoSubroutine,
  WorkspaceReadySubroutine, FinalizeAccountInfoSubroutine,
}

-- `mcreconcile.Request`; the accounts are not namespaced.
pub record Request : Type 0 where
  pub cluster_name : String
  pub name : String

-- `ctrl.Result`; a duration may be negative.
pub record ReconcileResult : Type 0 where
  pub requeue_after : ℤ

module _ (M L : Type 0) where
  -- What the interface `subroutines.Subroutine` holds here.
  pub data Subroutine : Type 0 where
    workspace_type : WorkspaceTypeSubroutine M → Subroutine
    workspace : WorkspaceSubroutine M L → Subroutine
    manage_account_info : ManageAccountInfoSubroutine M L → Subroutine
    workspace_ready : WorkspaceReadySubroutine M L → Subroutine
    finalize_account_info : FinalizeAccountInfoSubroutine M L → Subroutine

  -- `lifecycle.New(mgr, name, newObject, subs…)`, with or without a conditions manager. The
  -- objects that it makes are of the kind named here.
  pub record Lifecycle : Type 0 where
    pub mgr : M
    pub name : String
    pub kind : String
    pub subroutines : List Subroutine
    pub conditions : Bool

-- What `ControllerManagedBy(mgr)` is told before `Complete`. The predicates are the one that the
-- debug label makes, and those of the caller.
pub record ControllerSetup (M L Pred : Type 0) : Type 0 where
  pub mgr : M
  pub name : String
  pub kind : String
  pub max_concurrent_reconciles : ℕ
  pub rate_limiter : L
  pub event_filter : List Pred

-- The part of the `CommonServiceConfig` of golang-commons that the operator reads.
pub record ServiceConfig : Type 0 where
  pub max_concurrent_reconciles : ℕ
  pub debug_label_value : String
  pub shutdown_timeout : ℕ
  pub enable_http2 : Bool
  pub tracing_enabled : Bool
  pub tracing_collector : String
  pub leader_election_enabled : Bool
  pub metrics_bind_address : String
  pub metrics_secure : Bool
  pub health_probe_bind_address : String
