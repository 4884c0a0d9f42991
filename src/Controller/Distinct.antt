-- ===== src/Controller/Distinct.antt =====
-- That no two subroutines of a controller have the same name or hold the same finalizer.
use account_operator.Base.{
  String, ◌≡◌, Bool, true, false, Option, none, some, List, map, arith, distinct,
}
use account_operator.Meta.{Ref}
use account_operator.Api.Account.{Account}
use account_operator.Api.AccountInfo.{AccountInfo}
use account_operator.Config.{OperatorConfig}
use account_operator.Platform.{ok}
use account_operator.ClusteredName.{account, account_info}
use account_operator.Controller.Account.{AccountReconciler, new_account_reconciler}
use account_operator.Controller.AccountInfo.{AccountInfoReconciler, new_account_info_reconciler}
use account_operator.Controller.Dispatch.{get_name, all_finalizers}
use account_operator.Subroutines.Construct.{
  NewRateLimiter, new_workspace_subroutine, new_manage_account_info_subroutine,
  new_workspace_ready_subroutine, new_workspace_type_subroutine,
  new_finalize_account_info_subroutine,
}

-- The list of finalizers is made, without a panic, and repeats none.
abbrev pub are_distinct : Option (List String) → Bool
are_distinct none = false
are_distinct (some fs) = distinct fs

module _ {M L E : Type 0} (new_limiter : NewRateLimiter E L) (mgr : M) (server_ca : String)
    (cfg : OperatorConfig) where
  account_names :
      {r : AccountReconciler M L}
      → new_account_reconciler new_limiter mgr server_ca cfg ≡ ok r
      → distinct (map get_name r.lifecycle.subroutines) ≡ true
  unfolding new_account_reconciler new_workspace_subroutine new_manage_account_info_subroutine
      new_workspace_ready_subroutine new_workspace_type_subroutine
  account_names h = ground arith

  account_finalizers :
      {r : AccountReconciler M L}
      → new_account_reconciler new_limiter mgr server_ca cfg ≡ ok r
      → (inst : Ref Account)
      → are_distinct (all_finalizers r.lifecycle.subroutines (account inst)) ≡ true
  unfolding new_account_reconciler new_workspace_subroutine new_manage_account_info_subroutine
      new_workspace_ready_subroutine new_workspace_type_subroutine
  account_finalizers h inst = ground arith

  -- No two subroutines of a controller that can be made have the same name, or hold the same
  -- finalizer on an object of the controller's kind; there, every list of finalizers is made
  -- without a panic.
  pub subroutines_distinct :
      {r : AccountReconciler M L} {i : AccountInfoReconciler M L}
      → new_account_reconciler new_limiter mgr server_ca cfg ≡ ok r
      → new_account_info_reconciler new_limiter mgr cfg ≡ ok i
      → (distinct (map get_name r.lifecycle.subroutines) ≡ true)
        × (distinct (map get_name i.lifecycle.subroutines) ≡ true)
        × ((inst : Ref Account)
            → are_distinct (all_finalizers r.lifecycle.subroutines (account inst)) ≡ true)
        × ((inst : Ref AccountInfo)
            → are_distinct (all_finalizers i.lifecycle.subroutines (account_info inst)) ≡ true)
  unfolding new_account_info_reconciler new_finalize_account_info_subroutine
  subroutines_distinct made made' =
      (account_names made, ground arith, account_finalizers made, λ inst. ground arith)
