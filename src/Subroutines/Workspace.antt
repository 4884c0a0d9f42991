-- ===== src/Subroutines/Workspace.antt =====
-- pkg/subroutines/workspace/workspace.go
pub mod Prepare
pub mod Create
pub mod Finalize
pub mod Deletion
pub mod Again
pub mod Effects
use account_operator.Base.{
  String, Bool, false, not, ◌==◌, ◌||◌, none, some, [], ◌∷◌, List, if◌then◌else◌,
}
use account_operator.Meta.{Ref}
use account_operator.Api.Account.{Account, account_type_org}
use account_operator.Kcp.{Workspace, new_workspace}
use account_operator.Platform.{Platform, Context, Result, ok, err}
use account_operator.ClusteredName.{Object, as_account, must_get_clustered_name}
use account_operator.Exec.{
  Exec, SubroutineResult, done, api, ◌>>=◌, ◌>>◌, pure, fail, reads, writes, lift, requeue, forget,
}
use account_operator.Subroutines.Util.{get_workspace_type_name}
use account_operator.Subroutines.ManageAccountInfo.{default_account_info_name}

abbrev pub get_name : String
get_name = "WorkspaceSubroutine"

abbrev pub workspace_finalizer : String
workspace_finalizer = "account.core.platform-mesh.io/finalizer"

abbrev pub orgs_workspace_path : String
orgs_workspace_path = "root:orgs"

abbrev pub finalizers : Object → List String
finalizers _ = workspace_finalizer ∷ []

module _ (P : Platform) where
  unfoldable pub finalize : Context → Object → Exec P SubroutineResult
  unfolding must_get_clustered_name
  finalize ctx obj = do
    inst ← as_account obj
    cn ← must_get_clustered_name ctx obj
    cluster ← lift (← reads (P.get_cluster cn.cluster_id))
    found ← reads (P.workspaces.get cluster inst.val.meta.name)
    elim found [
      | err e ↦
          if P.is_not_found e || P.is_no_match e
          then (do forget inst.ptr; pure done)
          else fail (api e)
      | ok ws ↦ elim ws.meta.deletion_timestamp [
        | some t ↦ requeue inst.ptr "Waiting for Workspace deletion"
        | none ↦ do
          lift (← writes (P.workspaces.delete cluster ws.meta.name))
          requeue inst.ptr "Waiting for Workspace deletion"
      ]
    ]

  unfoldable pub check_workspace_type_ready : String → Exec P Bool
  check_workspace_type_ready workspace_type_name = do
    cluster ← lift (← reads (P.get_cluster orgs_workspace_path))
    found ← reads (P.workspace_types.get cluster workspace_type_name)
    elim found [
      | err e ↦ if P.is_not_found e then pure false else fail (api e)
      | ok wst ↦ pure (P.is_ready wst)
    ]

  -- The function that `CreateOrUpdate` is given.
  abbrev pub mutate_workspace : Account → String → Workspace → Result P.ApiError Workspace
  mutate_workspace owner workspace_type_name ws = P.set_owner_reference owner (record ws {
    spec = record ws.spec {
      type = some (record { name = workspace_type_name; path = orgs_workspace_path });
    };
  })

  -- The part of `Process` from the check of the workspace type on.
  unfoldable pub ensure_workspace : Ref Account → P.Cluster → String → Exec P SubroutineResult
  unfolding check_workspace_type_ready
  ensure_workspace inst cluster workspace_type_name = do
    ready ← check_workspace_type_ready workspace_type_name
    if not ready then requeue inst.ptr "Workspace type not ready yet" else do
      lift
          (← writes (
            P.workspaces.create_or_update cluster (new_workspace inst.val.meta.name)
              (mutate_workspace inst.val workspace_type_name)))
      forget inst.ptr
      pure done

  unfoldable pub process : Context → Object → Exec P SubroutineResult
  unfolding must_get_clustered_name
  process ctx obj = do
    inst ← as_account obj
    cn ← must_get_clustered_name ctx obj
    cluster ← lift (← reads (P.get_cluster cn.cluster_id))
    let type = inst.val.spec.type
    if type == account_type_org
        then ensure_workspace inst cluster (get_workspace_type_name inst.val.meta.name type)
        else do
          found ← reads (P.account_infos.get cluster default_account_info_name)
          elim found [
            | err e ↦
                if P.is_not_found e
                then requeue inst.ptr "AccountInfo not found yet"
                else fail (api e)
            | ok info ↦
                let org = info.spec.organization.name in
                if org == ""
                then requeue inst.ptr "AccountInfo organization name not set yet"
                else ensure_workspace inst cluster (get_workspace_type_name org type)
          ]
