-- ===== src/Subroutines/Workspace/Effects.antt =====
-- What a run of the Workspace subroutine can change: the workspace of its account.
use account_operator.Base.{String, ◌≡◌, ap, ◌∙◌, inl, inr, arith, Option-cases}
use account_operator.Meta.{Ref}
use account_operator.Api.Account.{Account}
use account_operator.Kcp.{Workspace, new_workspace}
use account_operator.Platform.{Platform, Context, Result, Result-cases}
use account_operator.Platform.Laws.{WorkspaceLaws}
use account_operator.ClusteredName.{account}
use account_operator.Exec.Preserves.{Preserves}
use account_operator.Subroutines.Workspace.{process, finalize}
use account_operator.Subroutines.Workspace.Create.{process-Wrote}

module _ (P : Platform) {X : Type 0} (view : P.World → X) where
  -- No write of the workspace `n`, in any cluster, changes what is seen.
  pub record BlindToWorkspace (n : String) : Type 0 where
    pub updated :
        (c : P.Cluster) (f : Workspace → Result P.ApiError Workspace) (w : P.World)
        → view (P.workspaces.create_or_update c (new_workspace n) f w).1 ≡ view w
    pub deleted : (c : P.Cluster) (w : P.World) → view (P.workspaces.delete c n w).1 ≡ view w

  module _ (ctx : Context) (inst : Ref Account) (blind : BlindToWorkspace inst.val.meta.name) where
    pub process-Preserves : Preserves P view (process P ctx (account inst))
    process-Preserves s = elim (process-Wrote P ctx inst s) [
      | inl stops ↦ ap view stops.0
      | inr wrote ↦ ap view wrote.world ∙ blind.updated wrote.prepared.cluster _ s.world
    ]

    pub finalize-Preserves : WorkspaceLaws P → Preserves P view (finalize P ctx (account inst))
    unfolding finalize
    finalize-Preserves L s = elim (Option-cases ctx.cluster) [
      | inl e ↦ ground arith
      | inr (id, e) ↦ elim (Result-cases (P.get_cluster id s.world)) [
        | inr (x, e2) ↦ ground arith
        | inl (c, e2) ↦ elim (Result-cases (P.workspaces.get c inst.val.meta.name s.world)) [
          | inr (x, e3) ↦ ground arith
          | inl (ws, e3) ↦
              let named = L.name-get c inst.val.meta.name s.world e3 in
              ground (arith, rw (← named) at (blind.deleted c s.world))
        ]
      ]
    ]
