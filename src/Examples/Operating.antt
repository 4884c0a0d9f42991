-- ===== src/Examples/Operating.antt =====
-- The operator with its settings of the start, and one reconciliation.
use account_operator.Base.{
  String, ◌≡◌, refl, ◌⊎◌, ◌↔◌, true, false, Option, none, List, [], ◌∷◌, map, distinct,
}
use account_operator.Base.Int.{pos}
use account_operator.Platform.{ok}
use account_operator.Platform.Memory.{memory}
use account_operator.Config.{new_operator_config}
use account_operator.Config.Flags.{add_flags, write_defaults, name, write_defaults-add_flags}
use account_operator.Subroutines.Construct.{
  LimiterOption, NewRateLimiter, manage_account_info_options, new_workspace_subroutine,
  new_manage_account_info_subroutine, new_workspace_ready_subroutine, new_workspace_type_subroutine,
  new_finalize_account_info_subroutine,
}
use account_operator.Controller.{
  Request, ReconcileResult, ServiceConfig, workspace_type, workspace, manage_account_info,
  workspace_ready,
}
use account_operator.Controller.AccountInfo.{new_account_info_reconciler}
use account_operator.Controller.Account.{AccountReconciler, new_account_reconciler}
use account_operator.Controller.Order.{
  AsEnabled, new_account_reconciler-AsEnabled, new_account_reconciler_iff,
}
use account_operator.Controller.Reconcile.{IsTypeOf, CountsAs, reconcile, reconcile_counted}
use account_operator.Exec.{Exec, Error, pure, returns}
use account_operator.Metrics.{accounts_reconciled, inc}
use account_operator.Operator.Boot.{returned, panicked}
use account_operator.Operator.Run.{
  Libraries, run_controller, run_body, create_manager, create_account_controller,
  create_account_info_controller, start_manager,
}
use account_operator.Operator.Run.Shutdown.{Served, run_controller_ends}
use account_operator.Operator.Run.Startup.{run_controller-Planned}
use account_operator.Operator.Run.Plan.{starts, Planned}
use account_operator.Examples.{state, ready_world}

write_defaults-add_flags_example :
    (write_defaults (add_flags new_operator_config) (record new_operator_config {
      kcp = record { api_export_endpoint_slice_name = ""; provider_workspace = "" };
    })
      ≡ new_operator_config)
    × (distinct (map name (add_flags new_operator_config)) ≡ true)
write_defaults-add_flags_example =
    write_defaults-add_flags
      (record new_operator_config {
        kcp = record { api_export_endpoint_slice_name = ""; provider_workspace = "" };
      })
      new_operator_config

-- A rate limiter is the list of its settings.
abbrev pub new_limiter : NewRateLimiter String (List LimiterOption)
new_limiter options = ok options

abbrev pub reconciler : AccountReconciler String (List LimiterOption)
reconciler = record {
  cfg = new_operator_config;
  lifecycle = record {
    mgr = "mgr";
    name = "AccountReconciler";
    kind = "Account";
    subroutines =
        workspace_type (record { mgr = "mgr" })
        ∷ workspace (record { mgr = "mgr"; limiter = [] })
        ∷ manage_account_info
            (record { mgr = "mgr"; server_ca = "ca"; limiter = manage_account_info_options })
        ∷ workspace_ready (record { mgr = "mgr"; limiter = [] })
        ∷ [];
    conditions = true;
  };
  rate_limiter = [];
  mgr = "mgr";
}

pub reconciler_made :
    new_account_reconciler new_limiter "mgr" "ca" new_operator_config ≡ ok reconciler
unfolding new_account_reconciler new_workspace_subroutine new_manage_account_info_subroutine
    new_workspace_ready_subroutine new_workspace_type_subroutine
reconciler_made = refl

new_account_reconciler-AsEnabled_example :
    AsEnabled new_operator_config.subroutines reconciler.lifecycle.subroutines
new_account_reconciler-AsEnabled_example =
    new_account_reconciler-AsEnabled new_limiter "mgr" "ca" new_operator_config reconciler
      reconciler_made

reconciler_makeable :
    ((r : AccountReconciler String (List LimiterOption)) × (new_account_reconciler new_limiter "mgr"
          "ca" new_operator_config
        ≡ ok r))
    ↔ (((l : List LimiterOption) × (new_limiter [] ≡ ok l))
        × ((new_operator_config.subroutines.account_info ≡ false)
            ⊎ ((l : List LimiterOption) × (new_limiter manage_account_info_options ≡ ok l))))
reconciler_makeable = new_account_reconciler_iff new_limiter "mgr" "ca" new_operator_config

-- A lifecycle that asks to be called again after five nanoseconds.
abbrev waits : Request → Exec memory (ReconcileResult × Option (Error memory.ApiError))
waits req = pure (record { requeue_after = pos 5 }, none)

abbrev request : Request
request = record { cluster_name = "orgs"; name = "acme" }

reconcile_counted_example :
    (type : String) × (label : String) × IsTypeOf memory request ready_world type
    × CountsAs memory (pos 5) none label
    × (reconcile memory waits request (state ready_world) ≡ (
      returns (record { requeue_after = pos 5 }, none),
      record (state ready_world) { samples = inc accounts_reconciled (type ∷ label ∷ []) ∷ [] },
    ))
reconcile_counted_example =
    reconcile_counted memory waits request (state ready_world) (record { requeue_after = pos 5 })
      none refl

-- Every call succeeds.
abbrev libraries : Libraries
libraries = record {
  E = String;
  Limiter = List LimiterOption;
  Pred = String;
  init_tracing = λ _. none;
  get_config = none;
  in_cluster_config = none;
  new_provider = λ _. none;
  new_manager = λ _. none;
  new_limiter = new_limiter;
  server_ca = "ca";
  debug_predicate = λ label. label;
  complete = λ _. none;
  setup_webhook = λ _. none;
  add_healthz_check = none;
  add_readyz_check = none;
  start = none;
  stop_tracing = none;
}

abbrev service : ServiceConfig
service = record {
  max_concurrent_reconciles = 10;
  debug_label_value = "";
  shutdown_timeout = 60000000000;
  enable_http2 = false;
  tracing_enabled = false;
  tracing_collector = "";
  leader_election_enabled = true;
  metrics_bind_address = ":9090";
  metrics_secure = false;
  health_probe_bind_address = ":8090";
}

operator_starts : starts (run_controller libraries service new_operator_config).1 ≡ true
unfolding run_controller run_body create_manager create_account_controller
    create_account_info_controller start_manager new_account_reconciler new_account_info_reconciler
    new_workspace_subroutine new_manage_account_info_subroutine new_workspace_ready_subroutine
    new_finalize_account_info_subroutine
operator_starts = refl

run_controller-Planned_example :
    Planned libraries service new_operator_config
      (run_controller libraries service new_operator_config).1
run_controller-Planned_example =
    run_controller-Planned libraries service new_operator_config operator_starts

run_controller_ends_example :
    (((run_controller libraries service new_operator_config).0 ≡ returned) ↔ (
      Served libraries service new_operator_config
      × (false ≡ true)
      × (libraries.stop_tracing ≡ none)))
    × (((run_controller libraries service new_operator_config).0
          ≡ panicked "invalid memory address or nil pointer dereference")
        ↔ (Served libraries service new_operator_config × (false ≡ false)))
run_controller_ends_example = run_controller_ends libraries service new_operator_config
