-- ===== src/Subroutines/FinalizeAccountInfo.antt =====
-- pkg/subroutines/finalizeaccountinfo/finalize_accountinfo.go
pub mod Childless
use account_operator.Base.{String, not, ◌&&◌, [], ◌∷◌, List, length, ltb, if◌then◌else◌}
use account_operator.Platform.{Platform, Context, Result, ok, err}
use account_operator.ClusteredName.{Object, as_account_info}
use account_operator.Exec.{
  Exec, SubroutineResult, done, wrapped, ◌>>=◌, ◌>>◌, pure, fail, reads, lift_wrapped, requeue,
  forget,
}

abbrev pub get_name : String
get_name = "FinalizeAccountInfoSubroutine"

abbrev pub account_info_finalizer : String
account_info_finalizer = "account.core.platform-mesh.io/info"

abbrev pub finalizers : Object → List String
finalizers _ = account_info_finalizer ∷ []

module _ (P : Platform) where
  -- The error of `List` that ends the run: any but those of an absent kind.
  abbrev pub list_failed : Result P.ApiError (Unit {0}) → Exec P (Unit {0})
  list_failed (ok _) = pure tt
  list_failed (err e) =
      if not (P.is_not_found e) && not (P.is_no_match e)
      then fail (wrapped "listing child accounts" e)
      else pure tt

  unfoldable pub finalize : Context → Object → Exec P SubroutineResult
  finalize ctx obj = do
    inst ← as_account_info obj
    cluster ← lift_wrapped "getting cluster from context" (← reads (P.cluster_from_context ctx))
    listed ← reads (P.list_accounts cluster)
    list_failed listed.1
    if ltb 0 (length listed.0.items)
        then requeue inst.ptr "Accounts still exist"
        else (do forget inst.ptr; pure done)
