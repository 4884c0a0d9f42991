-- ===== src/Controller/Deletion.antt =====
-- How the controller of accounts comes to the end of a deletion.
use account_operator.Base.{
  ℕ, String, ◌≡◌, ◌⊎◌, inl, inr, false, Option, none, some, List, [], ◌∷◌, All, eqb, arith,
}
use account_operator.Meta.{Ref}
use account_operator.Api.Account.{Account, account_type_org}
use account_operator.Config.{OperatorConfig}
use account_operator.Platform.{Platform, Context, ok}
use account_operator.Platform.Laws.{WorkspaceLaws}
use account_operator.ClusteredName.{Object, account}
use account_operator.Exec.{State, returns, done, stop_with_requeue}
use account_operator.Controller.{
  Subroutine, workspace_type, workspace, manage_account_info, workspace_ready,
  finalize_account_info,
}
use account_operator.Controller.Account.{AccountReconciler, new_account_reconciler}
use account_operator.Controller.Dispatch.{Handler, finalizer}
use account_operator.Controller.Order.{rank, runs, new_account_reconciler-AsEnabled}
use account_operator.Subroutines.Construct.{NewRateLimiter}
use account_operator.Subroutines.Workspace
use account_operator.Subroutines.Workspace.Deletion.{Available, Settled, finalize_ends}
use account_operator.Subroutines.WorkspaceType.Deletion.{TypesDeleted, types_done}

module _ (P : Platform) (ctx : Context) where
  -- The first run succeeds, or it asks to be called again and the second one succeeds.
  abbrev pub EndsAt : Object → State P → State P → Option (Handler P) → Type 0
  EndsAt o s s' none = Unit
  EndsAt o s s' (some h) =
      ((h ctx o s).0 ≡ returns done)
      ⊎ ((after : ℕ) × (reason : String) × ((h ctx o s).0
            ≡ returns (stop_with_requeue after reason))
          × ((h ctx o s').0 ≡ returns done))

  module _ (id : String) (c : P.Cluster) (inst : Ref Account) (s s' : State P) where
    -- No call of the first run fails, and before the second one the API server has finished the
    -- deletion of the workspace.
    pub record Deletable : Type 0 where
      pub in_context : ctx.cluster ≡ some id
      pub types : inst.val.spec.type ≡ account_type_org → TypesDeleted P inst.val.meta.name s.world
      pub workspace : Available P id inst.val.meta.name c s.world
      pub settled :
          Settled P id inst.val.meta.name c
            (Workspace.finalize P ctx (account inst) s).1.world
            s'.world

    module _ {M L : Type 0} (W : WorkspaceLaws P) (d : Deletable) where
      finalizer_ends :
          (x : Subroutine M L) → eqb (rank x) 4 ≡ false → EndsAt (account inst) s s' (finalizer P x)
      finalizer_ends (workspace_type x) h = inl (types_done P ctx inst s d.types)
      finalizer_ends (workspace x) h =
          elim (finalize_ends P ctx id c inst d.in_context W s s' d.workspace d.settled) [
            | inl e ↦ inl e
            | inr (after, e, e') ↦ inr (after, "Waiting for Workspace deletion", e, e')
          ]
      finalizer_ends (manage_account_info x) h = tt
      finalizer_ends (workspace_ready x) h = tt
      finalizer_ends (finalize_account_info x) h = cc

      finalizers_end :
          (xs : List (Subroutine M L))
          → runs xs 4 ≡ false
          → All (λ x. EndsAt (account inst) s s' (finalizer P x)) xs
      finalizers_end [] h = tt
      finalizers_end (x ∷ xs) h =
          (finalizer_ends x (ground arith), finalizers_end xs (ground arith))

      -- If no call fails, and kcp deletes the workspace once it is being deleted, every finalizer of
      -- the account controller comes to its end for an account: its handler succeeds in the first
      -- run, or it asks to be called again and succeeds in the second.
      pub deletion_ends :
          {E : Type 0} (new_limiter : NewRateLimiter E L) (mgr : M) (server_ca : String)
          (cfg : OperatorConfig) {r : AccountReconciler M L}
          → new_account_reconciler new_limiter mgr server_ca cfg ≡ ok r
          → All (λ x. EndsAt (account inst) s s' (finalizer P x)) r.lifecycle.subroutines
      deletion_ends new_limiter mgr server_ca cfg {r} made =
          finalizers_end r.lifecycle.subroutines
            (new_account_reconciler-AsEnabled new_limiter mgr server_ca cfg r made).no_other
