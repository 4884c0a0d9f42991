-- ===== src/Operator/Run/Shutdown.antt =====
-- How the operator ends.
use account_operator.Base.{
  String, ◌≡◌, sym, ◌⊎◌, ◌↔◌, ap, ◌∙◌, Option-cases, inl, inr, true, false, none, arith,
}
use account_operator.Config.{OperatorConfig}
use account_operator.Controller.{ServiceConfig}
use account_operator.Operator.Boot.{Boot, ◌>>◌, when, goes, fatal, End, returned, exited, panicked}
use account_operator.Operator.Run.{
  Libraries, Ev, create_manager, create_account_controller, create_account_info_controller,
  create_webhook, run_body, run_controller, start_manager, stop_tracing_deferred,
}
use account_operator.Operator.Run.Startup.{controller-cases, controller_of_goes}
use account_operator.Operator.Run.Plan.{starts, starts-append, run_body-Reached}

module _ (lib : Libraries) (d : ServiceConfig) (cfg : OperatorConfig) where
  -- A part that goes on does so in its last step, and lists what that step lists.
  through :
      (m n : Boot (Ev lib d cfg) (Unit {0}))
      → (m >> n).0 ≡ goes tt
      → (n.0 ≡ goes tt) × (starts n.1 ≡ true → starts (m >> n).1 ≡ true)
  through (goes tt, es) n h = (h, λ k. ground (arith, starts-append es n.1))
  through (fatal m, es) n h = absurd (cc)

  start_manager-goes :
      (start_manager lib d cfg).0 ≡ goes tt
      → (starts (start_manager lib d cfg).1 ≡ true) × (lib.start ≡ none)
  unfolding start_manager
  start_manager-goes h = elim (Option-cases lib.start) [
    | inl e ↦ (ground arith, e)
    | inr (x, e) ↦ absurd (ground arith)
  ]

  start_manager_of_starts :
      starts (start_manager lib d cfg).1 ≡ true
      → lib.start ≡ none
      → (start_manager lib d cfg).0 ≡ goes tt
  unfolding start_manager
  start_manager_of_starts h e = ground arith

  run_body-goes :
      (run_body lib d cfg).0 ≡ goes tt → (starts (run_body lib d cfg).1 ≡ true) × (lib.start ≡ none)
  unfolding run_body
  run_body-goes h =
      let a = create_account_controller lib d cfg in
      let i = when cfg.controllers.account_info (create_account_info_controller lib d cfg) in
      let w = when cfg.webhooks.enabled (create_webhook lib d cfg) in
      let s = start_manager lib d cfg in
      let (h1, k1) = through (create_manager lib d cfg) (a >> (i >> (w >> s))) h in
      let (h2, k2) = through a (i >> (w >> s)) h1 in
      let (h3, k3) = through i (w >> s) h2 in
      let (h4, k4) = through w s h3 in
      let (k5, e) = start_manager-goes h4 in (k1 (k2 (k3 (k4 k5))), e)

  -- The manager has been started, and has come to its end without an error.
  pub record Served : Type 0 where
    pub started : starts (run_controller lib d cfg).1 ≡ true
    pub stopped : lib.start ≡ none

  Served_of_goes : (run_body lib d cfg).0 ≡ goes tt → Served
  Served_of_goes h =
      let (k, e) = run_body-goes h in
      record {
        started = rw (controller_of_goes lib d cfg h) (
            ground
              (arith, k, starts-append (run_body lib d cfg).1 (stop_tracing_deferred lib d cfg).1));
        stopped = e;
      }

  goes_of_served : Served → (run_body lib d cfg).0 ≡ goes tt
  goes_of_served v = elim (controller-cases lib d cfg) [
    | inr e ↦ e
    | inl x ↦
        let r = run_body-Reached lib d cfg (rw x.run at v.started) in
        r.same_end ∙ start_manager_of_starts r.reached v.stopped
  ]

  run_controller_of_served :
      Served → (run_controller lib d cfg).0 ≡ (stop_tracing_deferred lib d cfg).0
  run_controller_of_served v = ap (λ r. r.0) (controller_of_goes lib d cfg (goes_of_served v))

  Served_of_end :
      (e : End) → (run_controller lib d cfg).0 ≡ e → ((m : String) × (e ≡ exited m)) ⊎ Served
  Served_of_end e h = elim (controller-cases lib d cfg) [
    | inl x ↦ inl (x.text, sym h ∙ ap (λ r. r.0) x.run)
    | inr k ↦ inr (Served_of_goes k)
  ]

  -- The operator returns in order exactly if its manager was started and has ended without an
  -- error, tracing is enabled, and stopping the tracing does not fail. With tracing disabled it
  -- panics by a nil pointer exactly if the manager was started and has ended without an error.
  pub run_controller_ends :
      (((run_controller lib d cfg).0 ≡ returned)
        ↔ (Served × (d.tracing_enabled ≡ true) × (lib.stop_tracing ≡ none)))
      × (((run_controller lib d cfg).0
            ≡ panicked "invalid memory address or nil pointer dereference")
          ↔ (Served × (d.tracing_enabled ≡ false)))
  unfolding stop_tracing_deferred
  run_controller_ends = (
    (
      λ h. elim (Served_of_end returned h) [
        | inl (m, e) ↦ absurd (cc)
        | inr v ↦ (
          v,
          ground (arith, h, run_controller_of_served v),
          ground (arith, h, run_controller_of_served v),
        )
      ],
      λ (v, t, e). ground (arith, t, e, run_controller_of_served v),
    ),
    (
      λ h. elim (Served_of_end (panicked "invalid memory address or nil pointer dereference") h) [
        | inl (m, e) ↦ absurd (cc)
        | inr v ↦ (v, ground (arith, h, run_controller_of_served v))
      ],
      λ (v, t). ground (arith, t, run_controller_of_served v),
    ),
  )
