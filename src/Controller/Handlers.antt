-- ===== src/Controller/Handlers.antt =====
-- What holds of every handler that a controller can call.
use account_operator.Base.{
  ℕ, String, ◌≡◌, ◌⊎◌, inl, inr, false, Option, none, some, List, [], ◌∷◌, All, eqb, arith, refl,
  eq_iff, Bool-cases,
}
use account_operator.Meta.{Ref}
use account_operator.Api.Account.{Account}
use account_operator.Api.AccountInfo.{AccountInfo}
use account_operator.Config.{OperatorConfig}
use account_operator.Platform.{Platform, Context, ok, Result-cases}
use account_operator.ClusteredName.{Object, account, account_info}
use account_operator.Exec.{State, Outcome, SubroutineResult, returns, fails, panics}
use account_operator.Controller.{
  Subroutine, workspace_type, workspace, manage_account_info, workspace_ready,
  finalize_account_info,
}
use account_operator.Controller.Account.{AccountReconciler, new_account_reconciler}
use account_operator.Controller.AccountInfo.{AccountInfoReconciler, new_account_info_reconciler}
use account_operator.Controller.Dispatch.{Handler, kind_of, processor, finalizer, finalizers}
use account_operator.Controller.Order.{rank, runs, new_account_reconciler-AsEnabled}
use account_operator.Subroutines.Construct.{
  NewRateLimiter, FinalizeAccountInfoSubroutine, new_finalize_account_info_subroutine,
}
use account_operator.Subroutines.Contract.{Limited, account-Limited, finalize_account_info-Limited}
use account_operator.Subroutines.WorkspaceType

-- The address of the object, by which the rate limiters know it.
abbrev ptr_of : Object → ℕ
ptr_of (account a) = a.ptr
ptr_of (account_info i) = i.ptr

-- The run does not panic, and does not touch a rate limiter.
abbrev pub Unlimited :
    {P : Platform} → State P → Outcome P.ApiError SubroutineResult × State P → Type 0
Unlimited s (returns r, s') = s'.limiter ≡ s.limiter
Unlimited s (fails e, s') = s'.limiter ≡ s.limiter
Unlimited s (panics t, s') = ⊥

module _ {M L : Type 0} (P : Platform) (ctx : Context) (o : Object) (s : State P) where
  -- WorkspaceType has no rate limiter; the others keep to theirs. None panics.
  abbrev pub Keeps : Subroutine M L → Outcome P.ApiError SubroutineResult × State P → Type 0
  Keeps (workspace_type _) r = Unlimited s r
  Keeps (workspace _) r = Limited (ptr_of o) s r
  Keeps (manage_account_info _) r = Limited (ptr_of o) s r
  Keeps (workspace_ready _) r = Limited (ptr_of o) s r
  Keeps (finalize_account_info _) r = Limited (ptr_of o) s r

  abbrev pub Handles : Subroutine M L → Option (Handler P) → Type 0
  Handles x none = Unit
  Handles x (some h) = Keeps x (h ctx o s)

  pub record IsSafe (x : Subroutine M L) : Type 0 where
    pub processes : Handles x (processor P x)
    pub finalizes : Handles x (finalizer P x)
    pub held : (fs : List String) × (finalizers x o ≡ some fs)

module _ (P : Platform) (ctx : Context) (s : State P) where
  types_processed :
      (inst : Ref Account) → Unlimited s (WorkspaceType.process P ctx (account inst) s)
  unfolding WorkspaceType.process WorkspaceType.create_or_patch_workspace_type
  types_processed inst = ground arith

  types_finalized :
      (inst : Ref Account) → Unlimited s (WorkspaceType.finalize P ctx (account inst) s)
  unfolding WorkspaceType.finalize WorkspaceType.delete_workspace_type
  types_finalized inst = ground arith

module _ {M L : Type 0} (P : Platform) (ctx : Context) (id : String)
    (in_context : ctx.cluster ≡ some id) (s : State P) where
  -- Each of the subroutines of the account controller, on an account.
  account-IsSafe :
      (inst : Ref Account) (x : Subroutine M L)
      → eqb (rank x) 4 ≡ false
      → IsSafe P ctx (account inst) s x
  account-IsSafe inst (workspace_type x) h = record {
    processes = types_processed P ctx s inst;
    finalizes = types_finalized P ctx s inst;
    held = (_, refl);
  }
  account-IsSafe inst (workspace x) h =
      let (p, f, _, _) = account-Limited P ctx id in_context s "" inst in
      record { processes = p; finalizes = f; held = (_, refl) }
  account-IsSafe inst (manage_account_info x) h =
      let (_, _, p, _) = account-Limited P ctx id in_context s x.server_ca inst in
      record { processes = p; finalizes = tt; held = (_, refl) }
  account-IsSafe inst (workspace_ready x) h =
      let (_, _, _, p) = account-Limited P ctx id in_context s "" inst in
      record { processes = p; finalizes = tt; held = (_, refl) }
  account-IsSafe inst (finalize_account_info x) h = cc

  accounts-IsSafe :
      (inst : Ref Account) (xs : List (Subroutine M L))
      → runs xs 4 ≡ false
      → All (IsSafe P ctx (account inst) s) xs
  accounts-IsSafe inst [] h = tt
  accounts-IsSafe inst (x ∷ xs) h =
      (account-IsSafe inst x (ground arith), accounts-IsSafe inst xs (ground arith))

module _ {M L E : Type 0} (new_limiter : NewRateLimiter E L) (mgr : M) (cfg : OperatorConfig)
    (P : Platform) (ctx : Context) (id : String) (in_context : ctx.cluster ≡ some id)
    (s : State P) where
  -- The one subroutine of the controller of AccountInfos.
  info_subroutines :
      {i : AccountInfoReconciler M L}
      → new_account_info_reconciler new_limiter mgr cfg ≡ ok i
      → (i.lifecycle.subroutines ≡ [])
        ⊎ ((x : FinalizeAccountInfoSubroutine M L) × (i.lifecycle.subroutines
              ≡ finalize_account_info x ∷ []))
  unfolding new_account_info_reconciler new_finalize_account_info_subroutine
  info_subroutines h = elim (Bool-cases cfg.controllers.account_info) [
    | inr off ↦ inl (ground arith)
    | inl on ↦ elim (Result-cases (new_limiter [])) [
      | inr (x, e) ↦ absurd (ground arith)
      | inl (l, e) ↦ inr (record { mgr = mgr; limiter = l }, ground arith)
    ]
  ]

  infos-IsSafe :
      (inst : Ref AccountInfo) (xs : List (Subroutine M L))
      → (xs ≡ []) ⊎ ((x : FinalizeAccountInfoSubroutine M L) × (xs ≡ finalize_account_info x ∷ []))
      → All (IsSafe P ctx (account_info inst) s) xs
  infos-IsSafe inst xs (inl e) = rw e tt
  infos-IsSafe inst xs (inr (x, e)) = rw e (
    record {
      processes = tt;
      finalizes = finalize_account_info-Limited P ctx inst s;
      held = (_, refl);
    },
    tt,
  )

  -- In a context with a cluster, on an object of the kind that its controller is made for, no
  -- handler that a controller can call panics, in any state, nor does the list of its finalizers;
  -- every handler keeps to its rate limiter, and those of WorkspaceType leave it alone.
  pub handlers-IsSafe :
      (server_ca : String) {r : AccountReconciler M L} {i : AccountInfoReconciler M L}
      → new_account_reconciler new_limiter mgr server_ca cfg ≡ ok r
      → new_account_info_reconciler new_limiter mgr cfg ≡ ok i
      → (o : Object)
      → (kind_of o ≡ r.lifecycle.kind → All (IsSafe P ctx o s) r.lifecycle.subroutines)
        × (kind_of o ≡ i.lifecycle.kind → All (IsSafe P ctx o s) i.lifecycle.subroutines)
  unfolding new_account_reconciler new_account_info_reconciler new_finalize_account_info_subroutine
  handlers-IsSafe server_ca {r} {i} made made' (account inst) = (
    λ _.
        accounts-IsSafe P ctx id in_context s inst r.lifecycle.subroutines
          (new_account_reconciler-AsEnabled new_limiter mgr server_ca cfg r made).no_other,
    λ h. absurd (ground (arith, made', eq_iff "Account" "AccountInfo")),
  )
  handlers-IsSafe server_ca {r} {i} made made' (account_info inst) = (
    λ h. absurd (ground (arith, made, eq_iff "Account" "AccountInfo")),
    λ _. infos-IsSafe inst i.lifecycle.subroutines (info_subroutines made'),
  )
