-- ===== src/Subroutines/Workspace/Deletion.antt =====
-- How finalizing in the Workspace subroutine comes to its end.
use account_operator.Base.{ℕ, String, ◌≡◌, ◌⊎◌, inl, inr, true, some, arith, Option-cases}
use account_operator.Meta.{Ref}
use account_operator.Api.Account.{Account}
use account_operator.Kcp.{Workspace}
use account_operator.Platform.{Platform, Context, Result, ok, err}
use account_operator.Platform.Laws.{WorkspaceLaws, IsGoing}
use account_operator.ClusteredName.{account}
use account_operator.Exec.{State, returns, done, stop_with_requeue}
use account_operator.Subroutines.Workspace.{finalize}
use account_operator.Subroutines.Workspace.Finalize.{finalize-IsGoing}

module _ (P : Platform) (id name : String) (c : P.Cluster) where
  abbrev read : P.World → Result P.ApiError Workspace
  read w = P.workspaces.get c name w

  -- There is no such workspace.
  pub record Gone (w : P.World) : Type 0 where
    pub error : P.ApiError
    pub absent : read w ≡ err error
    pub not_found : P.is_not_found error ≡ true

  -- The cluster can be reached, and the workspace is read, and then can be deleted, or is not there.
  pub record Available (w : P.World) : Type 0 where
    pub found : P.get_cluster id w ≡ ok c
    pub readable :
        ((ws : Workspace) × (read w ≡ ok ws) × ((P.workspaces.delete c name w).0 ≡ ok tt)) ⊎ Gone w

  -- Between two runs the API server has done its part: a workspace that was being deleted is gone.
  pub record Settled (w w' : P.World) : Type 0 where
    pub found : P.get_cluster id w' ≡ ok c
    pub settled : IsGoing (λ (a : Workspace). a.meta) P.is_not_found P.workspaces (read w) → Gone w'

module _ (P : Platform) (ctx : Context) (id : String) (c : P.Cluster) (inst : Ref Account)
    (in_context : ctx.cluster ≡ some id) where
  done_of_Gone :
      (s : State P)
      → P.get_cluster id s.world ≡ ok c
      → Gone P id inst.val.meta.name c s.world
      → (finalize P ctx (account inst) s).0 ≡ returns done
  unfolding finalize
  done_of_Gone s found g = ground (arith, g.absent, g.not_found)

  -- Where the workspace can be read and deleted, the run asks to be called again.
  waits_of_present :
      WorkspaceLaws P
      → (s : State P) (ws : Workspace) → P.get_cluster id s.world ≡ ok c
      → P.workspaces.get c inst.val.meta.name s.world ≡ ok ws
      → (P.workspaces.delete c inst.val.meta.name s.world).0 ≡ ok tt
      → (after : ℕ) × ((finalize P ctx (account inst) s).0
          ≡ returns (stop_with_requeue after "Waiting for Workspace deletion"))
  unfolding finalize
  waits_of_present L s ws found read deleted =
      let named = L.name-get c inst.val.meta.name s.world read in
      elim (Option-cases ws.meta.deletion_timestamp) [
        | inr (t, e) ↦ ((P.when_next inst.ptr s.limiter).0, ground arith)
        | inl e ↦ ((P.when_next inst.ptr s.limiter).0, ground arith)
      ]

  -- If no call fails, two runs of finalizing are enough: the first succeeds, or it asks to be called
  -- again, and then a run from any state in which the API server has finished the deletions that
  -- were under way succeeds.
  pub finalize_ends :
      WorkspaceLaws P
      → (s s' : State P) → Available P id inst.val.meta.name c s.world
      → Settled P id inst.val.meta.name c (finalize P ctx (account inst) s).1.world s'.world
      → ((finalize P ctx (account inst) s).0 ≡ returns done)
        ⊎ ((after : ℕ) × ((finalize P ctx (account inst) s).0
              ≡ returns (stop_with_requeue after "Waiting for Workspace deletion"))
            × ((finalize P ctx (account inst) s').0 ≡ returns done))
  finalize_ends L s s' a settled = elim a.readable [
    | inr gone ↦ inl (done_of_Gone s a.found gone)
    | inl (ws, read, deleted) ↦
        let (after, waits) = waits_of_present L s ws a.found read deleted in
        let (i, going) = finalize-IsGoing P ctx inst s L after _ waits in
        let same : i.cluster ≡ c = ground (arith, i.in_context, i.found, in_context, a.found) in
        inr (after, waits, done_of_Gone s' settled.found (settled.settled (rw same at going)))
  ]
