-- ===== src/Operator/Run/Startup.antt =====
-- What has been set up when the operator starts its manager.
use account_operator.Base.{String, ◌≡◌, refl, ◌⊎◌, inl, inr, true, false, List, ◌++◌, arith}
use mathlib.Core.List.{append_assoc}
use account_operator.Config.{OperatorConfig}
use account_operator.Controller.{ServiceConfig}
use account_operator.Operator.Boot.{Status, goes, fatal, exited}
use account_operator.Operator.Run.{Libraries, Ev, run_body, run_controller, stop_tracing_deferred}
use account_operator.Operator.Run.Plan.{starts, starts-append, Planned, run_body-Reached}

pub Status-cases : (r : Status (Unit {0})) → (r ≡ goes tt) ⊎ ((m : String) × (r ≡ fatal m))
Status-cases (goes tt) = inl refl
Status-cases (fatal m) = inr (m, refl)

module _ (lib : Libraries) (d : ServiceConfig) (cfg : OperatorConfig) where
  deferred-quiet : starts (stop_tracing_deferred lib d cfg).1 ≡ false
  unfolding stop_tracing_deferred
  deferred-quiet = ground arith

  Planned-append :
      (xs ys : List (Ev lib d cfg))
      → Planned lib d cfg xs
      → starts ys ≡ false
      → Planned lib d cfg (xs ++ ys)
  Planned-append xs ys p q = record {
    limiter = p.limiter;
    made = p.made;
    rest = p.rest ++ ys;
    calls = rw p.calls (simp append_assoc);
    once = rw starts-append (ground (arith, p.once));
  }

  controller_of_fatal :
      (m : String)
      → (run_body lib d cfg).0 ≡ fatal m
      → run_controller lib d cfg ≡ (exited m, (run_body lib d cfg).1)
  unfolding run_controller
  controller_of_fatal m e = rw (e, run_controller) refl

  pub controller_of_goes :
      (run_body lib d cfg).0 ≡ goes tt
      → run_controller lib d cfg ≡ (
        (stop_tracing_deferred lib d cfg).0,
        (run_body lib d cfg).1 ++ (stop_tracing_deferred lib d cfg).1,
      )
  unfolding run_controller
  controller_of_goes e = rw (e, run_controller) refl

  -- The run ends by `log.Fatal()`, or goes on to the deferred functions.
  pub record Exits : Type 0 where
    pub text : String
    pub body : (run_body lib d cfg).0 ≡ fatal text
    pub run : run_controller lib d cfg ≡ (exited text, (run_body lib d cfg).1)

  pub controller-cases : Exits ⊎ ((run_body lib d cfg).0 ≡ goes tt)
  controller-cases = elim (Status-cases (run_body lib d cfg).0) [
    | inr (m, e) ↦ inl (record { text = m; body = e; run = controller_of_fatal m e })
    | inl e ↦ inr e
  ]

  -- Where the operator starts its manager, at whatever end of the run, it has made the calls of the
  -- plan before it, in the plan's order, and starts it once. The plan has the controller of
  -- accounts, and the controller of AccountInfos and the webhook with the configured lists exactly
  -- if these are enabled.
  pub run_controller-Planned :
      starts (run_controller lib d cfg).1 ≡ true → Planned lib d cfg (run_controller lib d cfg).1
  run_controller-Planned h = elim controller-cases [
    | inl x ↦ rw x.run (run_body-Reached lib d cfg (rw x.run at h)).planned
    | inr e ↦
        let es = (run_body lib d cfg).1 in
        let es' = (stop_tracing_deferred lib d cfg).1 in
        let k : starts (es ++ es') ≡ true = rw (controller_of_goes e) at h in
        rw (controller_of_goes e) (
          Planned-append es es'
            (run_body-Reached lib d cfg
              (ground (arith, k, deferred-quiet, starts-append es es'))).planned
            deferred-quiet)
  ]
