-- ===== src/Subroutines/Contract.antt =====
-- What the subroutines keep to, whatever they do: how they use the rate limiter, and that they
-- do not panic on an object of their own kind in a context with a cluster.
use account_operator.Base.{ℕ, String, ◌≡◌, inl, inr, some, arith}
use account_operator.Meta.{Ref}
use account_operator.Api.Account.{Account}
use account_operator.Api.AccountInfo.{AccountInfo, AccountLocation}
use account_operator.Platform.{Platform, Context, Result-cases}
use account_operator.ClusteredName.{account, account_info}
use account_operator.Exec.{
  State, Outcome, SubroutineResult, returns, fails, panics, done, stop_with_requeue,
}
use account_operator.Subroutines.Workspace
use account_operator.Subroutines.ManageAccountInfo
use account_operator.Subroutines.ManageAccountInfo.{self_location}
use account_operator.Subroutines.ManageAccountInfo.Address.{retrieve_bounds}
use account_operator.Subroutines.WorkspaceReady
use account_operator.Subroutines.FinalizeAccountInfo

-- The back-off of the item `ptr` starts again with a success, a run that asks to be called again
-- does so after just the time that the limiter says, and an error leaves the limiter alone. No
-- run panics.
abbrev pub Limited :
    {P : Platform} → ℕ → State P → Outcome P.ApiError SubroutineResult × State P → Type 0
Limited {P} ptr s (returns done, s') = s'.limiter ≡ P.forget ptr s.limiter
Limited {P} ptr s (returns (stop_with_requeue after reason), s') =
    P.when_next ptr s.limiter ≡ (after, s'.limiter)
Limited {P} ptr s (fails e, s') = s'.limiter ≡ s.limiter
Limited {P} ptr s (panics t, s') = ⊥

module _ (P : Platform) where
  module _ (ctx : Context) (id : String) (c : ctx.cluster ≡ some id) (s : State P) where
    process_workspace-Limited :
        (inst : Ref Account) → Limited inst.ptr s (Workspace.process P ctx (account inst) s)
    unfolding Workspace.process Workspace.ensure_workspace
    process_workspace-Limited inst = ground arith

    finalize_workspace-Limited :
        (inst : Ref Account) → Limited inst.ptr s (Workspace.finalize P ctx (account inst) s)
    unfolding Workspace.finalize
    finalize_workspace-Limited inst = ground arith

    process_org-Limited :
        (ca : String) (inst : Ref Account) (self : AccountLocation) (to : P.Cluster)
        → Limited inst.ptr s (ManageAccountInfo.process_org P ca inst self to s)
    unfolding ManageAccountInfo.process_org
    process_org-Limited ca inst self to = ground arith

    process_child-Limited :
        (ca : String) (inst : Ref Account) (self : AccountLocation) (from to : P.Cluster)
        → Limited inst.ptr s (ManageAccountInfo.process_child P ca inst self from to s)
    unfolding ManageAccountInfo.process_child
    process_child-Limited ca inst self from to = ground arith

    process_account_info-Limited :
        (ca : String) (inst : Ref Account)
        → Limited inst.ptr s (ManageAccountInfo.process P ca ctx (account inst) s)
    unfolding ManageAccountInfo.process
    process_account_info-Limited ca inst = elim (Result-cases (P.get_cluster id s.world)) [
      | inr (x, e) ↦ ground arith
      | inl (from, e) ↦ elim (Result-cases (P.workspaces.get from inst.val.meta.name s.world)) [
        | inr (x, e2) ↦ ground arith
        | inl (ws, e2) ↦ elim (retrieve_bounds ws) [
          | inr (inl e3) ↦ ground arith
          | inr (inr e3) ↦ ground arith
          | inl (path, e3) ↦ elim (Result-cases (P.get_cluster ws.spec.cluster s.world)) [
            | inr (x, e4) ↦ ground arith
            | inl (to, e4) ↦
                let self = self_location inst.val ws id path ws.spec.url in
                ground (
                  arith,
                  process_org-Limited ca inst self to,
                  process_child-Limited ca inst self from to,
                )
          ]
        ]
      ]
    ]

    process_ready-Limited :
        (inst : Ref Account) → Limited inst.ptr s (WorkspaceReady.process P ctx (account inst) s)
    unfolding WorkspaceReady.process
    process_ready-Limited inst = ground arith

    -- In a context that holds a cluster, each handler that the Account controller runs with a rate
    -- limiter keeps to it and does not panic.
    pub account-Limited :
        (ca : String) (inst : Ref Account)
        → Limited inst.ptr s (Workspace.process P ctx (account inst) s)
          × Limited inst.ptr s (Workspace.finalize P ctx (account inst) s)
          × Limited inst.ptr s (ManageAccountInfo.process P ca ctx (account inst) s)
          × Limited inst.ptr s (WorkspaceReady.process P ctx (account inst) s)
    account-Limited ca inst = (
      process_workspace-Limited inst,
      finalize_workspace-Limited inst,
      process_account_info-Limited ca inst,
      process_ready-Limited inst,
    )

  -- Finalizing an AccountInfo keeps to the rate limiter and does not panic, in any context.
  pub finalize_account_info-Limited :
      (ctx : Context) (inst : Ref AccountInfo) (s : State P)
      → Limited inst.ptr s (FinalizeAccountInfo.finalize P ctx (account_info inst) s)
  unfolding FinalizeAccountInfo.finalize
  finalize_account_info-Limited ctx inst s = ground arith
