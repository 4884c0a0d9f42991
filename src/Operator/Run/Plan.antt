-- ===== src/Operator/Run/Plan.antt =====
-- The calls that the body of `RunController` makes up to the start of the manager.
use account_operator.Base.{
  String, ◌≡◌, refl, ap, ◌∙◌, inl, inr, Bool, true, false, ◌||◌, List, [], ◌∷◌, ◌++◌, arith,
  if◌then◌else◌,
}
use mathlib.Core.List.{append_assoc}
use account_operator.Config.{OperatorConfig}
use account_operator.Controller.{ServiceConfig}
use account_operator.Controller.Account.{new_account_reconciler}
use account_operator.Controller.AccountInfo.{new_account_info_reconciler}
use account_operator.Operator.{account_validator}
use account_operator.Operator.Boot.{Boot, goes, fatal, ◌>>◌, when}
use account_operator.Operator.Run.{
  Event, start_context, init_tracing, new_webhook_server, get_config, wrap_transport,
  in_cluster_config, new_provider, new_manager, setup_controller, setup_webhook, add_healthz_check,
  add_readyz_check, start, Libraries, Ev, tls_options, manager_options, create_manager,
  create_account_controller, create_account_info_controller, create_webhook, start_manager,
  run_body,
}
use account_operator.Platform.{ok, Result-cases}

module _ {L Pred : Type 0} where
  abbrev is_start : Event L Pred → Bool
  is_start start = true
  is_start _ = false

  -- The manager is started.
  abbrev pub starts : List (Event L Pred) → Bool
  starts [] = false
  starts (e ∷ es) = is_start e || starts es

  pub starts-append : (xs ys : List (Event L Pred)) → starts (xs ++ ys) ≡ (starts xs || starts ys)
  starts-append [] ys = refl
  starts-append (x ∷ xs) ys = ground (arith, starts-append xs ys)

module _ (lib : Libraries) (d : ServiceConfig) (cfg : OperatorConfig) where
  abbrev optional : Bool → Ev lib d cfg → List (Ev lib d cfg)
  optional b e = if b then e ∷ [] else []

  abbrev manager_calls : List (Ev lib d cfg)
  manager_calls =
      start_context d.shutdown_timeout
      ∷ (optional d.tracing_enabled (init_tracing d.tracing_collector)
          ++ (new_webhook_server (tls_options lib d cfg) cfg.webhooks.cert_dir cfg.webhooks.port
              ∷ get_config
              ∷ wrap_transport
              ∷ (optional d.leader_election_enabled in_cluster_config
                  ++ (new_provider cfg.kcp.api_export_endpoint_slice_name
                      ∷ new_manager (manager_options lib d cfg)
                      ∷ []))))

  abbrev controller : String → String → lib.Limiter → Ev lib d cfg
  controller name kind l = setup_controller (record {
    mgr = tt;
    name = name;
    kind = kind;
    max_concurrent_reconciles = d.max_concurrent_reconciles;
    rate_limiter = l;
    event_filter = lib.debug_predicate d.debug_label_value ∷ [];
  })

  abbrev webhook : Ev lib d cfg
  webhook = setup_webhook (record { kind = "Account"; validator = account_validator cfg.webhooks })

  -- The calls before the manager is started: one controller for accounts, one for AccountInfos and
  -- the webhook where they are enabled, and the two health checks.
  abbrev pub plan : lib.Limiter → List (Ev lib d cfg)
  plan l =
      manager_calls
      ++ (controller "AccountReconciler" "Account" l
          ∷ (optional cfg.controllers.account_info
                (controller "AccountInfoReconciler" "AccountInfo" l)
              ++ (optional cfg.webhooks.enabled webhook
                  ++ (add_healthz_check ∷ add_readyz_check ∷ []))))

  -- A part that does not start the manager, and what it has called when it goes on.
  record Part (m : Boot (Ev lib d cfg) (Unit {0})) (calls : List (Ev lib d cfg)) : Type 0 where
    quiet : starts m.1 ≡ false
    full : m.0 ≡ goes tt → m.1 ≡ calls

  -- Where the manager is started behind such a part, the part has gone on.
  pass :
      (m n : Boot (Ev lib d cfg) (Unit {0})) (calls : List (Ev lib d cfg))
      → Part m calls
      → starts (m >> n).1 ≡ true
      → (starts n.1 ≡ true) × ((m >> n).1 ≡ calls ++ n.1) × ((m >> n).0 ≡ n.0)
  pass (goes tt, es) n calls p h =
      (ground (arith, p.quiet, starts-append es n.1), ap (λ xs. xs ++ n.1) (p.full refl), refl)
  pass (fatal t, es) n calls p h = absurd (ground (arith, p.quiet))

  went :
      (m n : Boot (Ev lib d cfg) (Unit {0}))
      → starts m.1 ≡ false
      → starts (m >> n).1 ≡ true
      → m.0 ≡ goes tt
  went (goes tt, es) n q h = refl
  went (fatal t, es) n q h = absurd (ground arith)

  create_manager-Part : Part (create_manager lib d cfg) manager_calls
  unfolding create_manager
  create_manager-Part = record { quiet = ground arith; full = λ h. ground arith }

  account_controller_limiter :
      (create_account_controller lib d cfg).0 ≡ goes tt
      → (l : lib.Limiter) × (lib.new_limiter [] ≡ ok l)
  unfolding create_account_controller new_account_reconciler
  account_controller_limiter h = elim (Result-cases (lib.new_limiter [])) [
    | inl x ↦ x
    | inr (x, e) ↦ absurd (ground arith)
  ]

  account_controller-quiet : starts (create_account_controller lib d cfg).1 ≡ false
  unfolding create_account_controller
  account_controller-quiet = ground arith

  account_controller-full :
      (l : lib.Limiter)
      → lib.new_limiter [] ≡ ok l
      → (create_account_controller lib d cfg).0 ≡ goes tt
      → (create_account_controller lib d cfg).1 ≡ controller "AccountReconciler" "Account" l ∷ []
  unfolding create_account_controller new_account_reconciler
  account_controller-full l e h = ground arith

  info_controller-Part :
      (l : lib.Limiter)
      → lib.new_limiter [] ≡ ok l
      → Part (when cfg.controllers.account_info (create_account_info_controller lib d cfg)) (
          optional cfg.controllers.account_info
            (controller "AccountInfoReconciler" "AccountInfo" l))
  unfolding create_account_info_controller new_account_info_reconciler
  info_controller-Part l e = record { quiet = ground arith; full = λ h. ground arith }

  webhook-Part :
      Part
        (when cfg.webhooks.enabled (create_webhook lib d cfg))
        (optional cfg.webhooks.enabled webhook)
  unfolding create_webhook account_validator
  webhook-Part = record { quiet = ground arith; full = λ h. ground arith }

  start_manager_lem :
      starts (start_manager lib d cfg).1 ≡ true
      → (start_manager lib d cfg).1 ≡ add_healthz_check ∷ add_readyz_check ∷ start ∷ []
  unfolding start_manager
  start_manager_lem h = ground arith

  -- What has been called when the manager is started, and with which limiter.
  pub record Planned (log : List (Ev lib d cfg)) : Type 0 where
    pub limiter : lib.Limiter
    pub made : lib.new_limiter [] ≡ ok limiter
    pub rest : List (Ev lib d cfg)
    pub calls : log ≡ plan limiter ++ (start ∷ rest)
    pub once : starts rest ≡ false

  -- The manager's start is reached: what came before, and that the run ends as its last part does.
  pub record Reached (m : Boot (Ev lib d cfg) (Unit {0})) : Type 0 where
    pub planned : Planned m.1
    pub same_end : m.0 ≡ (start_manager lib d cfg).0
    pub reached : starts (start_manager lib d cfg).1 ≡ true

  pub run_body-Reached : starts (run_body lib d cfg).1 ≡ true → Reached (run_body lib d cfg)
  unfolding run_body
  run_body-Reached h =
      let a = create_account_controller lib d cfg in
      let i = when cfg.controllers.account_info (create_account_info_controller lib d cfg) in
      let w = when cfg.webhooks.enabled (create_webhook lib d cfg) in
      let s = start_manager lib d cfg in
      let q = account_controller-quiet in
      let (h1, e1, f1) =
        pass (create_manager lib d cfg) (a >> (i >> (w >> s))) _ create_manager-Part h in
      let (l, made) = account_controller_limiter (went a (i >> (w >> s)) q h1) in
      let (h2, e2, f2) =
        pass a (i >> (w >> s)) _ (record { quiet = q; full = account_controller-full l made }) h1 in
      let (h3, e3, f3) = pass i (w >> s) _ (info_controller-Part l made) h2 in
      let (h4, e4, f4) = pass w s _ webhook-Part h3 in
      record {
        planned = record {
          limiter = l;
          made = made;
          rest = [];
          calls = e1 ∙ simp (e2, e3, e4, start_manager_lem h4, append_assoc);
          once = refl;
        };
        same_end = f1 ∙ f2 ∙ f3 ∙ f4;
        reached = h4;
      }
