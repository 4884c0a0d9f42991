-- ===== src/Subroutines/Workspace/Finalize.antt =====
-- What the Workspace subroutine has found or done when it finalizes an account.
use account_operator.Base.{ℕ, String, ◌≡◌, ◌⊎◌, ◌↔◌, inl, inr, true, some, arith, Option-cases}
use account_operator.Meta.{Ref}
use account_operator.Api.Account.{Account}
use account_operator.Kcp.{Workspace}
use account_operator.Platform.{Platform, Context, ok, err, Result-cases}
use account_operator.Platform.Laws.{WorkspaceLaws, IsGoing}
use account_operator.ClusteredName.{account}
use account_operator.Exec.{State, returns, done, stop_with_requeue}
use account_operator.Subroutines.Workspace.{finalize}

module _ (P : Platform) (ctx : Context) (inst : Ref Account) (s : State P) where
  pub record InCluster : Type 0 where
    pub cluster_id : String
    pub in_context : ctx.cluster ≡ some cluster_id
    pub cluster : P.Cluster
    pub found : P.get_cluster cluster_id s.world ≡ ok cluster

  -- `Get` has said that there is no such workspace, or no such kind of object.
  pub record Absent (c : P.Cluster) : Type 0 where
    pub error : P.ApiError
    pub read : P.workspaces.get c inst.val.meta.name s.world ≡ err error
    pub absent : (P.is_not_found error ≡ true) ⊎ (P.is_no_match error ≡ true)

  -- The account's workspace is absent in the cluster of the context, and nothing was written.
  abbrev pub FoundAbsent : Type 0
  FoundAbsent =
      (i : InCluster) × Absent i.cluster × ((finalize P ctx (account inst) s).1.world ≡ s.world)

  absent_of_done : (finalize P ctx (account inst) s).0 ≡ returns done → FoundAbsent
  unfolding finalize
  absent_of_done h = elim (Option-cases ctx.cluster) [
    | inl e ↦ absurd (ground arith)
    | inr (id, e) ↦ elim (Result-cases (P.get_cluster id s.world)) [
      | inr (x, e2) ↦ absurd (ground arith)
      | inl (c, e2) ↦ elim (Result-cases (P.workspaces.get c inst.val.meta.name s.world)) [
        | inr (x, e3) ↦ (
          record { cluster_id = id; in_context = e; cluster = c; found = e2 },
          record { error = x; read = e3; absent = ground arith },
          ground arith,
        )
        | inl (ws, e3) ↦ elim (Option-cases ws.meta.deletion_timestamp) [
          | inr (t, e4) ↦ absurd (ground arith)
          | inl e4 ↦ absurd (ground arith)
        ]
      ]
    ]
  ]

  done_of_absent : FoundAbsent → (finalize P ctx (account inst) s).0 ≡ returns done
  unfolding finalize
  done_of_absent (i, a, _) = elim a.absent [
    | inl e ↦ ground (arith, i.in_context, i.found, a.read, e)
    | inr e ↦ ground (arith, i.in_context, i.found, a.read, e)
  ]

  -- Finalizing ends with success exactly where the context holds a cluster that can be reached,
  -- reading the account's workspace there has said that there is no such workspace or no such kind
  -- of object, and nothing was written.
  pub finalize-Absent : ((finalize P ctx (account inst) s).0 ≡ returns done) ↔ FoundAbsent
  finalize-Absent = (absent_of_done, done_of_absent)

  going :
      WorkspaceLaws P
      → (c : P.Cluster) (ws : Workspace) (id : String) → ctx.cluster ≡ some id
      → P.get_cluster id s.world ≡ ok c
      → P.workspaces.get c inst.val.meta.name s.world ≡ ok ws
      → (after : ℕ) (reason : String)
      → (finalize P ctx (account inst) s).0 ≡ returns (stop_with_requeue after reason)
      → IsGoing
          (λ (a : Workspace). a.meta)
          P.is_not_found
          P.workspaces
          (P.workspaces.get c inst.val.meta.name (finalize P ctx (account inst) s).1.world)
  unfolding finalize
  going L c ws id e e2 e3 after reason h = elim (Option-cases ws.meta.deletion_timestamp) [
    | inr (t, e4) ↦
        let same : (finalize P ctx (account inst) s).1.world ≡ s.world = ground arith in
        rw (same, e3) (λ p. cc (e4, p))
    | inl e4 ↦ elim (Result-cases (P.workspaces.delete c ws.meta.name s.world).0) [
      | inr (x, e5) ↦ absurd (ground arith)
      | inl (_, e5) ↦
          let deleted : (finalize P ctx (account inst) s).1.world
              ≡ (P.workspaces.delete c ws.meta.name s.world).1 =
            ground arith in
          rw (deleted, ← L.name-get c inst.val.meta.name s.world e3)
            (L.get-delete c ws.meta.name s.world e5)
    ]
  ]

  -- If finalizing asks to be called again, the context holds a cluster that can be reached, and
  -- there the account's workspace cannot be found any more or is being deleted.
  pub finalize-IsGoing :
      WorkspaceLaws P
      → (after : ℕ) (reason : String)
      → (finalize P ctx (account inst) s).0 ≡ returns (stop_with_requeue after reason)
      → (i : InCluster) × IsGoing
          (λ (a : Workspace). a.meta)
          P.is_not_found
          P.workspaces
          (P.workspaces.get i.cluster inst.val.meta.name (finalize P ctx (account inst) s).1.world)
  unfolding finalize
  finalize-IsGoing L after reason h = elim (Option-cases ctx.cluster) [
    | inl e ↦ absurd (ground arith)
    | inr (id, e) ↦ elim (Result-cases (P.get_cluster id s.world)) [
      | inr (x, e2) ↦ absurd (ground arith)
      | inl (c, e2) ↦ elim (Result-cases (P.workspaces.get c inst.val.meta.name s.world)) [
        | inr (x, e3) ↦ absurd (ground arith)
        | inl (ws, e3) ↦ (
          record { cluster_id = id; in_context = e; cluster = c; found = e2 },
          going L c ws id e e2 e3 after reason h,
        )
      ]
    ]
  ]
