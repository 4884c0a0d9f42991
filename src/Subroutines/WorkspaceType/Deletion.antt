-- ===== src/Subroutines/WorkspaceType/Deletion.antt =====
-- How finalizing in the WorkspaceType subroutine comes to its end.
use account_operator.Base.{String, ◌==◌, ◌≡◌, inl, inr, true, ap, arith, eq_iff, Bool-cases}
use account_operator.Meta.{Ref}
use account_operator.Api.Account.{Account, account_type_org, account_type_account}
use account_operator.Platform.{Platform, Context, Result, Result-cases, ok, err}
use account_operator.ClusteredName.{account}
use account_operator.Exec.{State, returns, done}
use account_operator.Subroutines.Util.{get_workspace_type_name}
use account_operator.Subroutines.WorkspaceType.{
  orgs_workspace_path, finalize, delete_workspace_type,
}
use account_operator.Subroutines.WorkspaceType.Remove.{not_org_idle}

module _ (P : Platform) where
  -- The call has deleted the object, or has not found it.
  abbrev Deleted : Result P.ApiError (Unit {0}) → Type 0
  Deleted (ok _) = Unit
  Deleted (err e) = P.is_not_found e ≡ true

  -- The calls that delete the workspace types of an organization do not fail.
  pub record TypesDeleted (name : String) (w : P.World) : Type 0 where
    pub cluster : P.Cluster
    pub found : P.get_cluster orgs_workspace_path w ≡ ok cluster
    pub org_deleted :
        Deleted
          (P.workspace_types.delete cluster (get_workspace_type_name name account_type_org) w).0
    pub account_deleted :
        Deleted
          (P.workspace_types.delete cluster
            (get_workspace_type_name name account_type_account)
            (P.workspace_types.delete cluster
              (get_workspace_type_name name account_type_org)
              w).1).0

  org_types_done :
      (ctx : Context) (inst : Ref Account) (s : State P)
      → inst.val.spec.type ≡ account_type_org
      → TypesDeleted inst.val.meta.name s.world
      → (finalize P ctx (account inst) s).0 ≡ returns done
  unfolding finalize delete_workspace_type
  org_types_done ctx inst s is_org t =
      let name = inst.val.meta.name in
      let n = get_workspace_type_name name account_type_org in
      let m = get_workspace_type_name name account_type_account in
      let e = t.found in
      let same = eq_iff inst.val.spec.type account_type_org in
      let first = P.workspace_types.delete t.cluster n s.world in
      rw (is_org, e)
        (elim (Result-cases first.0) [
          | inl (_, e2) ↦ elim (Result-cases (P.workspace_types.delete t.cluster m first.1).0) [
            | inl (_, e3) ↦ ground (arith, e2, e3)
            | inr (x, e3) ↦ ground (arith, e2, e3, rw e3 at t.account_deleted)
          ]
          | inr (y, e2) ↦ elim (Result-cases (P.workspace_types.delete t.cluster m first.1).0) [
            | inl (_, e3) ↦ ground (arith, e2, e3, rw e2 at t.org_deleted)
            | inr (x, e3) ↦
                ground (arith, e2, e3, rw e2 at t.org_deleted, rw e3 at t.account_deleted)
          ]
        ])

  -- If the calls for the workspace types of an organization do not fail, one run is enough; for any
  -- other account a run always succeeds.
  pub types_done :
      (ctx : Context) (inst : Ref Account) (s : State P)
      → (inst.val.spec.type ≡ account_type_org → TypesDeleted inst.val.meta.name s.world)
      → (finalize P ctx (account inst) s).0 ≡ returns done
  types_done ctx inst s t = elim (Bool-cases (inst.val.spec.type == account_type_org)) [
    | inl e ↦ let is_org = (eq_iff _ _).0 e in org_types_done ctx inst s is_org (t is_org)
    | inr e ↦
        let (_, _, idle) = not_org_idle P ctx inst s (λ p. cc (e, (eq_iff _ _).1 p)) in
        ap (λ r. r.0) idle
  ]
