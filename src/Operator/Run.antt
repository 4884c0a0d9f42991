-- ===== src/Operator/Run.antt =====
-- cmd/operator.go: RunController, as the calls of libraries that it makes, in their order, and its
-- end. `log.Fatal()` ends the process by os.Exit(1), so that no deferred function runs.
pub mod Shutdown
pub mod Plan
pub mod Startup
use account_operator.Base.{
  ℕ, String, Bool, true, false, not, Option, none, some, List, [], ◌∷◌, ◌++◌, if◌then◌else◌,
}
use account_operator.Base.Int.{ℤ}
use account_operator.Api.Webhook.{WebhookSetup, setup_account_webhook_with_manager}
use account_operator.Config.{OperatorConfig}
use account_operator.Controller.{ControllerSetup, ServiceConfig}
use account_operator.Controller.Account
use account_operator.Controller.Account.{new_account_reconciler}
use account_operator.Controller.AccountInfo
use account_operator.Controller.AccountInfo.{new_account_info_reconciler}
use account_operator.Operator.{parse_deny_list, account_type_allow_list}
use account_operator.Operator.Boot.{
  Boot, Status, goes, fatal, End, returned, exited, panicked, pure, ◌>>=◌, ◌>>◌, when, call, made,
}
use account_operator.Subroutines.Construct.{NewRateLimiter}

-- The function that sets `NextProtos` to "http/1.1".
pub data TlsOption : Type 0 where
  disable_http2 : TlsOption

-- What `rest.InClusterConfig` returns.
pub data RestConfig : Type 0 where
  in_cluster : RestConfig

-- `mcmanager.Options`, without the scheme, the base context and the webhook server.
pub record ManagerOptions : Type 0 where
  pub metrics_bind_address : String
  pub metrics_secure : Bool
  pub tls_options : List TlsOption
  pub health_probe_bind_address : String
  pub leader_election : Bool
  pub leader_election_id : String
  pub leader_election_config : Option RestConfig
  pub leader_election_release_on_cancel : Bool

pub data Event (L Pred : Type 0) : Type 0 where
  start_context : ℕ → Event L Pred
  init_tracing : String → Event L Pred
  new_webhook_server : List TlsOption → String → ℤ → Event L Pred
  get_config : Event L Pred
  -- `restCfg.Wrap`, with the transport of otelhttp
  wrap_transport : Event L Pred
  in_cluster_config : Event L Pred
  new_provider : String → Event L Pred
  new_manager : ManagerOptions → Event L Pred
  setup_controller : ControllerSetup (Unit {0}) L Pred → Event L Pred
  setup_webhook : WebhookSetup → Event L Pred
  add_healthz_check : Event L Pred
  add_readyz_check : Event L Pred
  start : Event L Pred
  stop_tracing : Event L Pred
  stop_context : Event L Pred

-- What the libraries answer; `none` is the error nil. The manager is not looked into.
pub record Libraries : Type 1 where
  pub E : Type 0
  pub Limiter : Type 0
  pub Pred : Type 0
  pub init_tracing : String → Option E
  pub get_config : Option E
  pub in_cluster_config : Option E
  pub new_provider : String → Option E
  pub new_manager : ManagerOptions → Option E
  pub new_limiter : NewRateLimiter E Limiter
  pub server_ca : String
  pub debug_predicate : String → Pred
  pub complete : ControllerSetup (Unit {0}) Limiter Pred → Option E
  pub setup_webhook : WebhookSetup → Option E
  pub add_healthz_check : Option E
  pub add_readyz_check : Option E
  pub start : Option E
  pub stop_tracing : Option E

module _ (lib : Libraries) (d : ServiceConfig) (cfg : OperatorConfig) where
  abbrev pub Ev : Type 0
  Ev = Event lib.Limiter lib.Pred

  -- The builder's `Complete`, for one of the controllers.
  abbrev complete : ControllerSetup (Unit {0}) lib.Limiter lib.Pred → Boot Ev (Unit {0})
  complete s = call (setup_controller s) (lib.complete s) "unable to create controller"

  abbrev pub tls_options : List TlsOption
  tls_options = if not d.enable_http2 then disable_http2 ∷ [] else []

  abbrev pub manager_options : ManagerOptions
  manager_options = record {
    metrics_bind_address = d.metrics_bind_address;
    metrics_secure = d.metrics_secure;
    tls_options = tls_options;
    health_probe_bind_address = d.health_probe_bind_address;
    leader_election = d.leader_election_enabled;
    leader_election_id = "8c290d9a.platform-mesh.io";
    leader_election_config = if d.leader_election_enabled then some in_cluster else none;
    leader_election_release_on_cancel = true;
  }

  -- From the start to the manager.
  unfoldable pub create_manager : Boot Ev (Unit {0})
  create_manager = do
    (goes tt, start_context d.shutdown_timeout ∷ [])
    when d.tracing_enabled (
        call (init_tracing d.tracing_collector) (lib.init_tracing d.tracing_collector)
          "unable to start gRPC-Sidecar TracerProvider")
    (goes tt, new_webhook_server tls_options cfg.webhooks.cert_dir cfg.webhooks.port ∷ [])
    call get_config lib.get_config "unable to get kubeconfig"
    (goes tt, wrap_transport ∷ [])
    when d.leader_election_enabled
        (call in_cluster_config lib.in_cluster_config "unable to get in-cluster config")
    call (new_provider cfg.kcp.api_export_endpoint_slice_name)
        (lib.new_provider cfg.kcp.api_export_endpoint_slice_name) "creating APIExport provider"
    call (new_manager manager_options) (lib.new_manager manager_options) "unable to start manager"

  unfoldable pub create_account_controller : Boot Ev (Unit {0})
  unfolding Account.setup_with_manager
  create_account_controller = do
    r ←
        made (new_account_reconciler lib.new_limiter tt lib.server_ca cfg)
          "unable to create account reconciler"
    Account.setup_with_manager lib.debug_predicate complete r tt d []

  unfoldable pub create_account_info_controller : Boot Ev (Unit {0})
  unfolding AccountInfo.setup_with_manager
  create_account_info_controller = do
    r ←
        made (new_account_info_reconciler lib.new_limiter tt cfg)
          "unable to create account info reconciler"
    AccountInfo.setup_with_manager lib.debug_predicate complete r tt d []

  unfoldable pub create_webhook : Boot Ev (Unit {0})
  create_webhook =
      setup_account_webhook_with_manager
        (λ w. call (setup_webhook w) (lib.setup_webhook w) "unable to create webhook")
        (parse_deny_list cfg.webhooks.deny_list)
        (account_type_allow_list cfg.webhooks.additional_account_types)

  unfoldable pub start_manager : Boot Ev (Unit {0})
  start_manager = do
    call add_healthz_check lib.add_healthz_check "unable to set up health check"
    call add_readyz_check lib.add_readyz_check "unable to set up ready check"
    call start lib.start "problem running manager"

  -- The body of `RunController`.
  unfoldable pub run_body : Boot Ev (Unit {0})
  run_body = do
    create_manager
    create_account_controller
    when cfg.controllers.account_info create_account_info_controller
    when cfg.webhooks.enabled create_webhook
    start_manager

  -- The deferred function that stops tracing. The variable that it calls is nil unless tracing is
  -- enabled.
  unfoldable pub stop_tracing_deferred : End × List Ev
  stop_tracing_deferred =
      if d.tracing_enabled
      then elim lib.stop_tracing [
        | none ↦ (returned, stop_tracing ∷ stop_context ∷ [])
        | some e ↦ (exited "failed to shutdown TracerProvider", stop_tracing ∷ [])
      ]
      else (panicked "invalid memory address or nil pointer dereference", stop_context ∷ [])

  -- Where the body comes to its end, the deferred functions run, the last one first; the one that
  -- stops the context runs during a panic, too.
  unfoldable pub run_controller : End × List Ev
  run_controller =
      let (r, es) = run_body in
      elim r [
        | fatal m ↦ (exited m, es)
        | goes _ ↦ let (end, es') = stop_tracing_deferred in (end, es ++ es')
      ]
