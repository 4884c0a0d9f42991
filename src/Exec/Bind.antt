-- ===== src/Exec/Bind.antt =====
-- Inversion of a bind that has returned.
use account_operator.Base.{◌≡◌, refl}
use account_operator.Platform.{Platform}
use account_operator.Exec.{Exec, State, Outcome, returns, fails, panics, continue, ◌>>=◌}

module _ {P : Platform} {A B : Type 0} where
  -- The first action has returned a value, and the bind goes on from the state that it left.
  pub record Bound (m : Exec P A) (f : A → Exec P B) (s : State P) : Type 0 where
    pub value : A
    pub first : (m s).0 ≡ returns value
    pub rest : (m >>= f) s ≡ f value (m s).1

  continue-returns :
      (r : Outcome P.ApiError A) (f : A → Exec P B) (s : State P) {b : B}
      → (continue r f s).0 ≡ returns b
      → (a : A) × (r ≡ returns a) × (continue r f s ≡ f a s)
  continue-returns (returns a) f s h = (a, refl, refl)
  continue-returns (fails e) f s h = cc
  continue-returns (panics t) f s h = cc

  pub bind-returns :
      (m : Exec P A) (f : A → Exec P B) (s : State P) {b : B}
      → ((m >>= f) s).0 ≡ returns b
      → Bound m f s
  bind-returns m f s h =
      let (a, e, k) = continue-returns (m s).0 f (m s).1 h in
      record { value = a; first = e; rest = k }
