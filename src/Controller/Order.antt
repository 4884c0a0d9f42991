-- ===== src/Controller/Order.antt =====
-- Which subroutines a controller runs, in which order, and why it cannot be made.
use account_operator.Base.{
  ℕ, ◌+◌, ◌≤◌, String, ◌≡◌, ◌⊎◌, ◌↔◌, inl, inr, Bool, false, ◌||◌, List, [], ◌∷◌, eqb, arith,
  Bool-cases,
}
use account_operator.Config.{OperatorConfig, SubroutinesConfig}
use account_operator.Platform.{ok, Result-cases}
use account_operator.Subroutines.Construct.{
  NewRateLimiter, new_workspace_subroutine, new_manage_account_info_subroutine,
  new_workspace_ready_subroutine, new_workspace_type_subroutine, manage_account_info_options,
}
use account_operator.Controller.{
  Subroutine, workspace_type, workspace, manage_account_info, workspace_ready,
  finalize_account_info,
}
use account_operator.Controller.Account.{AccountReconciler, new_account_reconciler}

-- The place of a subroutine in the order.
abbrev pub rank : {M L : Type 0} → Subroutine M L → ℕ
rank (workspace_type _) = 0
rank (workspace _) = 1
rank (manage_account_info _) = 2
rank (workspace_ready _) = 3
rank (finalize_account_info _) = 4

-- The subroutines are in the order, each once at most.
abbrev pub InOrder : {M L : Type 0} → ℕ → List (Subroutine M L) → Type 0
InOrder n [] = Unit
InOrder n (x ∷ xs) = (n ≤ rank x) × InOrder (rank x + 1) xs

abbrev pub runs : {M L : Type 0} → List (Subroutine M L) → ℕ → Bool
runs [] k = false
runs (x ∷ xs) k = eqb (rank x) k || runs xs k

-- A subroutine runs exactly if the settings enable it.
pub record AsEnabled {M L : Type 0} (cfg : SubroutinesConfig) (xs : List (Subroutine M L))
    : Type 0 where
  pub ordered : InOrder 0 xs
  pub workspace_type : runs xs 0 ≡ cfg.workspace_type
  pub workspace : runs xs 1 ≡ cfg.workspace
  pub account_info : runs xs 2 ≡ cfg.account_info
  pub workspace_ready : runs xs 3 ≡ cfg.workspace_ready
  pub no_other : runs xs 4 ≡ false

module _ {M L E : Type 0} (new_limiter : NewRateLimiter E L) (mgr : M) (server_ca : String)
    (cfg : OperatorConfig) where
  -- An account controller that can be made runs the enabled ones of the subroutines WorkspaceType,
  -- Workspace, ManageAccountInfo and WorkspaceReady, each once, in this order.
  pub new_account_reconciler-AsEnabled :
      (r : AccountReconciler M L)
      → new_account_reconciler new_limiter mgr server_ca cfg ≡ ok r
      → AsEnabled cfg.subroutines r.lifecycle.subroutines
  unfolding new_account_reconciler new_workspace_subroutine new_manage_account_info_subroutine
      new_workspace_ready_subroutine new_workspace_type_subroutine
  new_account_reconciler-AsEnabled r h = record {
    ordered = ground arith;
    workspace_type = ground arith;
    workspace = ground arith;
    account_info = ground arith;
    workspace_ready = ground arith;
    no_other = ground arith;
  }

  -- It can be made exactly if the library makes the rate limiters that it needs: those with the
  -- default settings, and that of ManageAccountInfo where this one is enabled.
  pub new_account_reconciler_iff :
      ((r : AccountReconciler M L) × (new_account_reconciler new_limiter mgr server_ca cfg ≡ ok r))
      ↔ (((l : L) × (new_limiter [] ≡ ok l))
          × ((cfg.subroutines.account_info ≡ false)
              ⊎ ((l : L) × (new_limiter manage_account_info_options ≡ ok l))))
  unfolding new_account_reconciler new_workspace_subroutine new_manage_account_info_subroutine
      new_workspace_ready_subroutine new_workspace_type_subroutine
  new_account_reconciler_iff = (
    λ (r, h). elim (Result-cases (new_limiter [])) [
      | inr (x, e) ↦ absurd (ground arith)
      | inl (l, e) ↦ elim (Bool-cases cfg.subroutines.account_info) [
        | inr off ↦ ((l, e), inl off)
        | inl on ↦ elim (Result-cases (new_limiter manage_account_info_options)) [
          | inr (x, e2) ↦ absurd (ground arith)
          | inl (l2, e2) ↦ ((l, e), inr (l2, e2))
        ]
      ]
    ],
    λ ((l, e), other). elim (Result-cases (new_account_reconciler new_limiter mgr server_ca cfg)) [
      | inl (r, h) ↦ (r, h)
      | inr (x, h) ↦ absurd (ground arith)
    ],
  )
