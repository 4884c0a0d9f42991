-- ===== src/Subroutines/WorkspaceType.antt =====
-- pkg/subroutines/workspacetype/workspace_type.go
pub mod Isolation
pub mod Labels
pub mod Provision
pub mod Remove
pub mod Tenants
pub mod Effects
pub mod Deletion
pub mod Again
use account_operator.Base.{String, not, ◌==◌, Option, none, some, [], ◌∷◌, List, if◌then◌else◌}
use account_operator.Base.Dict.{Dict, copy}
use account_operator.Meta.{named}
use account_operator.Api.Account.{Account, account_type_org, account_type_account}
use account_operator.Kcp.{WorkspaceType, WorkspaceTypeReference, new_workspace_type}
use account_operator.Platform.{Platform, Context, ok, err}
use account_operator.Metrics.{workspace_type_operations}
use account_operator.ClusteredName.{Object, as_account}
use account_operator.Exec.{
  Exec, SubroutineResult, done, api, ◌>>=◌, ◌>>◌, pure, fail, reads, writes, lift, inc_counter,
}
use account_operator.Subroutines.Util.{get_workspace_type_name}

abbrev pub get_name : String
get_name = "WorkspaceTypeSubroutine"

abbrev pub subroutine_finalizer : String
subroutine_finalizer = "workspacetype.core.platform-mesh.io/finalizer"

abbrev pub root_workspace : String
root_workspace = "root"

abbrev pub orgs_workspace_path : String
orgs_workspace_path = "root:orgs"

abbrev pub org_label : String
org_label = "core.platform-mesh.io/org"

abbrev ref : String → String → WorkspaceTypeReference
ref name path = record { name = name; path = path }

unfoldable pub generate_org_workspace_type : String → String → String → WorkspaceType
generate_org_workspace_type org_type_name account_type_name org_name = record {
  meta = record (named org_type_name) { labels = some ((org_label, org_name) ∷ []) };
  spec = record {
    extend_with = ref "org" root_workspace ∷ [];
    default_child_workspace_type = some (ref account_type_name orgs_workspace_path);
    limit_allowed_parents = some (ref "orgs" root_workspace ∷ []);
    limit_allowed_children = some (ref account_type_name orgs_workspace_path ∷ []);
    authentication_configurations = [];
    other_fields = [];
  };
  conditions = [];
}

unfoldable pub generate_account_workspace_type : String → String → String → WorkspaceType
generate_account_workspace_type org_type_name account_type_name org_name = record {
  meta = record (named account_type_name) { labels = some ((org_label, org_name) ∷ []) };
  spec = record {
    extend_with = ref "account" root_workspace ∷ [];
    default_child_workspace_type = some (ref account_type_name orgs_workspace_path);
    limit_allowed_parents =
        some
          (ref org_type_name orgs_workspace_path ∷ ref account_type_name orgs_workspace_path ∷ []);
    limit_allowed_children = some (ref account_type_name orgs_workspace_path ∷ []);
    authentication_configurations = [];
    other_fields = [];
  };
  conditions = [];
}

-- A nil map has no entries.
abbrev pub entries : Option (Dict String) → Dict String
entries none = []
entries (some m) = m

-- The function that `CreateOrPatch` is given.
abbrev pub mutate_workspace_type : WorkspaceType → WorkspaceType → WorkspaceType
mutate_workspace_type desired wst = record wst {
  meta = record wst.meta {
    labels = some (copy (entries wst.meta.labels) (entries desired.meta.labels));
  };
  spec = record wst.spec {
    extend_with = desired.spec.extend_with;
    default_child_workspace_type = desired.spec.default_child_workspace_type;
    limit_allowed_parents = desired.spec.limit_allowed_parents;
    limit_allowed_children = desired.spec.limit_allowed_children;
  };
}

-- The code asserts that the object is an Account.
abbrev pub finalizers : Account → List String
finalizers inst = if not (inst.spec.type == account_type_org) then [] else subroutine_finalizer ∷ []

module _ (P : Platform) where
  unfoldable pub create_or_patch_workspace_type : WorkspaceType → String → Exec P (Unit {0})
  create_or_patch_workspace_type desired wst_kind = do
    orgs_cluster ← lift (← reads (P.get_cluster orgs_workspace_path))
    result ←
        lift
          (← writes (
            P.workspace_types.create_or_patch orgs_cluster (new_workspace_type desired.meta.name)
              (λ wst. ok (mutate_workspace_type desired wst))))
    inc_counter workspace_type_operations (result ∷ wst_kind ∷ [])

  unfoldable pub process : Context → Object → Exec P SubroutineResult
  process ctx obj = do
    inst ← as_account obj
    if not (inst.val.spec.type == account_type_org) then pure done else do
      let org = inst.val.meta.name
      let org_type_name = get_workspace_type_name org inst.val.spec.type
      let account_type_name = get_workspace_type_name org account_type_account
      create_or_patch_workspace_type
          (generate_org_workspace_type org_type_name account_type_name org) "org"
      create_or_patch_workspace_type
          (generate_account_workspace_type org_type_name account_type_name org) "account"
      pure done

  -- Deletes a workspace type that may be gone already.
  unfoldable pub delete_workspace_type : P.Cluster → String → Exec P (Unit {0})
  delete_workspace_type orgs_cluster name = do
    deleted ← writes (P.workspace_types.delete orgs_cluster name)
    elim deleted [ ok _ ↦ pure tt | err e ↦ if P.is_not_found e then pure tt else fail (api e) ]

  unfoldable pub finalize : Context → Object → Exec P SubroutineResult
  finalize ctx obj = do
    inst ← as_account obj
    if not (inst.val.spec.type == account_type_org) then pure done else do
      orgs_cluster ← lift (← reads (P.get_cluster orgs_workspace_path))
      delete_workspace_type orgs_cluster
          (get_workspace_type_name inst.val.meta.name inst.val.spec.type)
      delete_workspace_type orgs_cluster
          (get_workspace_type_name inst.val.meta.name account_type_account)
      pure done
