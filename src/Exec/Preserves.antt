-- ===== src/Exec/Preserves.antt =====
-- Actions that leave a part of the world as it is, whatever their outcome.
use account_operator.Base.{◌≡◌, refl, ◌∙◌}
use account_operator.Platform.{Platform}
use account_operator.Exec.{Exec, State, Outcome, returns, fails, panics, continue, ◌>>=◌}

-- `view` is what is seen of the world.
module _ (P : Platform) {X : Type 0} (view : P.World → X) where
  abbrev pub Preserves : {A : Type 0} → Exec P A → Type 0
  Preserves m = (s : State P) → view (m s).1.world ≡ view s.world

  continue-Preserves :
      {A B : Type 0} (r : Outcome P.ApiError A) (f : A → Exec P B) (s : State P)
      → ((a : A) → Preserves (f a))
      → view (continue r f s).1.world ≡ view s.world
  continue-Preserves (returns a) f s h = h a s
  continue-Preserves (fails e) f s h = refl
  continue-Preserves (panics m) f s h = refl

  pub bind-Preserves :
      {A B : Type 0} (m : Exec P A) (f : A → Exec P B)
      → Preserves m
      → ((a : A) → Preserves (f a))
      → Preserves (m >>= f)
  bind-Preserves m f h k s = continue-Preserves (m s).0 f (m s).1 k ∙ h s
