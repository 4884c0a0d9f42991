-- ===== src/Exec.antt =====
-- The code as actions on a state: they return, fail with a Go error or panic, and the state that
-- they leave comes back in each case. The state holds the world outside, the subroutine's rate
-- limiter and the samples recorded, the latest first.
-- Where a subroutine fails, the `subroutines.Result` beside the error is always `OK()`, so an
-- action that fails stands for that pair.
pub mod Bind
pub mod Preserves
use account_operator.Base.{ℕ, String, List, ◌∷◌, length, eqb, if◌then◌else◌}
use account_operator.Platform.{Platform, Result, ok, err}
use account_operator.Metrics.{Metric, Sample, inc, observe, opts}

-- A library's error, `fmt.Errorf` of a plain text, of a format and its arguments, and with `%w`.
pub data Error (E : Type 0) : Type 0 where
  api : E → Error E
  message : String → Error E
  formatted : String → List String → Error E
  wrapped : String → E → Error E

-- An error that `fmt.Errorf("text")` makes, and the panic of an index out of range.
pub data Fault : Type 0 where
  failed : String → Fault
  out_of_range : Fault

pub data Outcome (E A : Type 0) : Type 0 where
  returns : A → Outcome E A
  fails : Error E → Outcome E A
  panics : String → Outcome E A

pub record State (P : Platform) : Type 0 where
  pub world : P.World
  pub limiter : P.Limiter
  pub samples : List (Sample P.Float)

abbrev pub Exec : Platform → Type 0 → Type 0
Exec P A = State P → Outcome P.ApiError A × State P

-- What `subroutines.OK()` and `subroutines.StopWithRequeue(after, reason)` hand to the lifecycle.
pub data SubroutineResult : Type 0 where
  done : SubroutineResult
  stop_with_requeue : ℕ → String → SubroutineResult

module _ {P : Platform} {A : Type 0} where
  abbrev pub pure : A → Exec P A
  pure a s = (returns a, s)

  abbrev pub fail : Error P.ApiError → Exec P A
  fail e s = (fails e, s)

  abbrev pub panic : String → Exec P A
  panic m s = (panics m, s)

  -- Reads the world, and fails with the error that the call returns.
  abbrev pub lift : Result P.ApiError A → Exec P A
  lift (ok a) = pure a
  lift (err e) = fail (api e)

  -- The same, with `fmt.Errorf("text: %w", err)`.
  abbrev pub lift_wrapped : String → Result P.ApiError A → Exec P A
  lift_wrapped text (ok a) = pure a
  lift_wrapped text (err e) = fail (wrapped text e)

  -- A function that fails with a text, or panics.
  abbrev pub lift_fault : Result Fault A → Exec P A
  lift_fault (ok a) = pure a
  lift_fault (err (failed t)) = fail (message t)
  lift_fault (err out_of_range) = panic "runtime error: index out of range"

  abbrev pub reads : (P.World → A) → Exec P A
  reads f s = (returns (f s.world), s)

  abbrev pub writes : (P.World → A × P.World) → Exec P A
  writes f s = let (a, w) = f s.world in (returns a, record s { world = w })

module _ {P : Platform} {A B : Type 0} where
  abbrev pub continue : Outcome P.ApiError A → (A → Exec P B) → Exec P B
  continue (returns a) f s = f a s
  continue (fails e) f s = (fails e, s)
  continue (panics m) f s = (panics m, s)

  infixl 5 ◌>>=◌ ◌>>◌
  abbrev pub ◌>>=◌ : Exec P A → (A → Exec P B) → Exec P B
  ◌>>=◌ m f s = let (r, s') = m s in continue r f s'

  abbrev pub ◌>>◌ : Exec P A → Exec P B → Exec P B
  m >> n = m >>= λ _. n

module _ {P : Platform} where
  -- `r.limiter.When(instance)` and `r.limiter.Forget(instance)`
  abbrev pub when_next : ℕ → Exec P ℕ
  when_next ptr s =
      let (after, l) = P.when_next ptr s.limiter in (returns after, record s { limiter = l })

  abbrev pub forget : ℕ → Exec P (Unit {0})
  forget ptr s = (returns tt, record s { limiter = P.forget ptr s.limiter })

  -- `subroutines.StopWithRequeue(r.limiter.When(instance), reason), nil`
  abbrev pub requeue : ℕ → String → Exec P SubroutineResult
  requeue ptr reason = when_next ptr >>= λ after. pure (stop_with_requeue after reason)

  abbrev pub sample : Sample P.Float → Exec P (Unit {0})
  sample x s = (returns tt, record s { samples = x ∷ s.samples })

  -- `WithLabelValues` panics unless it is given a value for each label.
  abbrev pub with_label_values : Metric → List String → Sample P.Float → Exec P (Unit {0})
  with_label_values m values x =
      if eqb (length values) (length (opts m).labels)
      then sample x
      else panic "inconsistent label cardinality"

  -- `vec.WithLabelValues(values…).Inc()` and `.Observe(x)`
  abbrev pub inc_counter : Metric → List String → Exec P (Unit {0})
  inc_counter m values = with_label_values m values (inc m values)

  abbrev pub observe_histogram : Metric → List String → P.Float → Exec P (Unit {0})
  observe_histogram m values x = with_label_values m values (observe m values x)
