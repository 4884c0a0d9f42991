-- ===== src/Controller/Runs.antt =====
-- Runs of the handlers one after the other, as the two controllers may order them.
pub mod Kinds
pub mod Others
pub mod Infos
pub mod Stays
pub mod Roots
use account_operator.Base.{◌≡◌, refl, ◌∙◌, Option, none, some}
use account_operator.Platform.{Platform, Context}
use account_operator.Platform.Laws.{WorkspaceLaws}
use account_operator.ClusteredName.{Object}
use account_operator.Exec.{State}
use account_operator.Controller.{Subroutine}
use account_operator.Controller.Dispatch.{Handler, processor, finalizer}
use account_operator.Controller.Effects.{BlindTo, Leaves, handlers-Preserves}

module _ (P : Platform) (M L : Type 0) where
  -- Which runs there may be: of a subroutine, in a context, on an object, from a state.
  abbrev pub Condition : Type 1
  Condition = Subroutine M L → Context → Object → State P → Type 0

  -- Any handler of any subroutine where `Allowed` holds, with any outcome.
  pub data RunsOn (Allowed : Condition) : State P → State P → Type 0 where
    none_yet : (s : State P) → RunsOn Allowed s s
    processes :
        (x : Subroutine M L) (ctx : Context) (o : Object) {h : Handler P} {s s' : State P}
        → RunsOn Allowed s s'
        → Allowed x ctx o s'
        → processor P x ≡ some h
        → RunsOn Allowed s (h ctx o s').1
    finalizes :
        (x : Subroutine M L) (ctx : Context) (o : Object) {h : Handler P} {s s' : State P}
        → RunsOn Allowed s s'
        → Allowed x ctx o s'
        → finalizer P x ≡ some h
        → RunsOn Allowed s (h ctx o s').1

module _ (P : Platform) (I : State P → Type 0) where
  -- If the invariant holds before the run of the handler, if there is one, then it holds after it.
  abbrev pub HoldsAfter : Context → Object → State P → Option (Handler P) → Type 0
  HoldsAfter ctx o s none = Unit
  HoldsAfter ctx o s (some h) = I s → I (h ctx o s).1

  module _ {M L : Type 0} (Allowed : Condition P M L) where
    -- What every allowed run keeps true stays true over all of them.
    pub runs_hold :
        ((x : Subroutine M L) (ctx : Context) (o : Object) (s : State P)
          → Allowed x ctx o s
          → HoldsAfter ctx o s (processor P x) × HoldsAfter ctx o s (finalizer P x))
        → {s s' : State P} → RunsOn P M L Allowed s s'
        → I s
        → I s'
    runs_hold step (none_yet s) i = i
    runs_hold step (processes x ctx o {h} {s} {s'} runs allowed e) i =
        let holds : HoldsAfter ctx o s' (some h) = rw e at (step x ctx o s' allowed).0 in
        holds (runs_hold step runs i)
    runs_hold step (finalizes x ctx o {h} {s} {s'} runs allowed e) i =
        let holds : HoldsAfter ctx o s' (some h) = rw e at (step x ctx o s' allowed).1 in
        holds (runs_hold step runs i)

module _ (P : Platform) {X : Type 0} (view : P.World → X) where
  -- The run of the handler, if there is one, leaves what is seen as it is.
  abbrev pub KeepsAt : Context → Object → State P → Option (Handler P) → Type 0
  KeepsAt ctx o s none = Unit
  KeepsAt ctx o s (some h) = view (h ctx o s).1.world ≡ view s.world

  pub Leaves-KeepsAt :
      (ctx : Context) (o : Object) (s : State P) (m : Option (Handler P))
      → Leaves P view o m
      → KeepsAt ctx o s m
  Leaves-KeepsAt ctx o s none k = tt
  Leaves-KeepsAt ctx o s (some h) k = k ctx s

  keeps_held :
      (s : State P) (ctx : Context) (o : Object) (t : State P) (m : Option (Handler P))
      → KeepsAt ctx o t m
      → HoldsAfter P (λ t. view t.world ≡ view s.world) ctx o t m
  keeps_held s ctx o t none k = tt
  keeps_held s ctx o t (some h) k = λ i. k ∙ i

  module _ {M L : Type 0} (Allowed : Condition P M L) where
    -- What every allowed run keeps is kept by all of them together.
    pub runs_keep :
        ((x : Subroutine M L) (ctx : Context) (o : Object) (s : State P)
          → Allowed x ctx o s
          → KeepsAt ctx o s (processor P x) × KeepsAt ctx o s (finalizer P x))
        → {s s' : State P} → RunsOn P M L Allowed s s'
        → view s'.world ≡ view s.world
    runs_keep step {s} {s'} runs =
        runs_hold P (λ t. view t.world ≡ view s.world) Allowed
          (λ x ctx o t allowed.
            let (k, f) = step x ctx o t allowed in
            (keeps_held s ctx o t (processor P x) k, keeps_held s ctx o t (finalizer P x) f))
          runs refl

  module _ {M L : Type 0} (W : WorkspaceLaws P) (Allowed : Condition P M L) where
    -- So is what no write of an allowed run changes.
    pub runs-Preserves :
        ((x : Subroutine M L) (ctx : Context) (o : Object) (s : State P)
          → Allowed x ctx o s
          → BlindTo P view x o)
        → {s s' : State P} → RunsOn P M L Allowed s s'
        → view s'.world ≡ view s.world
    runs-Preserves b runs =
        runs_keep Allowed
          (λ x ctx o s allowed.
            let (k, f) = handlers-Preserves P view W x o (b x ctx o s allowed) in
            (Leaves-KeepsAt ctx o s (processor P x) k, Leaves-KeepsAt ctx o s (finalizer P x) f))
          runs
