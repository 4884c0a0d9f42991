-- ===== src/Subroutines/ManageAccountInfo.antt =====
-- pkg/subroutines/manageaccountinfo/manage_accountinfo.go
pub mod Locate
pub mod Write
pub mod Provision
pub mod Waits
pub mod Address
pub mod Hierarchy
pub mod Again
pub mod Effects
pub mod Rooted
use account_operator.Base.{
  String, not, ◌==◌, ◌&&◌, ◌||◌, none, some, [], get_elem?, ◌-◌, length, ltb, if◌then◌else◌,
}
use account_operator.Base.Text.{split, trim_space}
use account_operator.Meta.{Ref}
use account_operator.Api.Account.{Account, account_type_org}
use account_operator.Api.AccountInfo.{AccountInfo, AccountLocation, new_account_info}
use account_operator.Kcp.{Workspace}
use account_operator.Platform.{Platform, Context, Result, ok, err}
use account_operator.Metrics.{org_provisioning_duration}
use account_operator.ClusteredName.{Object, as_account, must_get_clustered_name}
use account_operator.Exec.{
  Exec, SubroutineResult, done, wrapped, ◌>>=◌, ◌>>◌, pure, fail, reads, writes, lift, lift_wrapped,
  Fault, failed, out_of_range, lift_fault, requeue, forget, observe_histogram,
}

abbrev pub get_name : String
get_name = "ManageAccountInfoSubroutine"

abbrev pub default_account_info_name : String
default_account_info_name = "account"

-- The last segment of the URL's path, and the URL.
unfoldable pub retrieve_current_workspace_path : Workspace → Result Fault (String × String)
retrieve_current_workspace_path ws =
    if ws.spec.url == ""
    then err (failed "workspace URL is empty")
    else let segments = split b'/' ws.spec.url in
      if ltb (length segments) 3
      then err (failed "workspace URL is invalid")
      else elim (get_elem? segments (length segments - 1)) [
        | none ↦ err out_of_range
        | some last_segment ↦
            if last_segment == "" || trim_space last_segment == ""
            then err (failed "workspace URL is empty")
            else ok (last_segment, ws.spec.url)
      ]

-- The functions that `CreateOrPatch` and `CreateOrUpdate` are given.
abbrev pub mutate_org : String → AccountLocation → AccountInfo → AccountInfo
mutate_org server_ca self info = record info {
  spec = record info.spec {
    account = self;
    parent_account = none;
    organization = self;
    cluster_info = record info.spec.cluster_info { ca = server_ca };
  };
}

abbrev pub mutate_child : String → AccountLocation → AccountInfo → AccountInfo → AccountInfo
mutate_child server_ca self parent info = record info {
  spec = record info.spec {
    account = self;
    parent_account = some parent.spec.account;
    organization = parent.spec.organization;
    fga = record info.spec.fga {
      store = record info.spec.fga.store { id = parent.spec.fga.store.id };
    };
    oidc = parent.spec.oidc;
    cluster_info = record info.spec.cluster_info { ca = server_ca };
  };
}

abbrev pub self_location : Account → Workspace → String → String → String → AccountLocation
self_location inst ws cluster_id path url = record {
  name = inst.meta.name;
  generated_cluster_id = ws.spec.cluster;
  origin_cluster_id = cluster_id;
  path = path;
  url = url;
  type = inst.spec.type;
}

module _ (P : Platform) (server_ca : String) where
  -- The branch of `Process` for an organization.
  unfoldable pub process_org : Ref Account → AccountLocation → P.Cluster → Exec P SubroutineResult
  process_org inst self account_cluster = do
    lift
        (← writes (
          P.account_infos.create_or_patch account_cluster
            (new_account_info default_account_info_name)
            (λ info. ok (mutate_org server_ca self info))))
    forget inst.ptr
    duration ← reads (P.seconds_since inst.val.meta.creation_timestamp)
    observe_histogram org_provisioning_duration [] duration
    pure done

  -- The rest of `Process`, for an account below an organization.
  unfoldable pub process_child :
      Ref Account → AccountLocation → P.Cluster → P.Cluster → Exec P SubroutineResult
  process_child inst self cluster account_cluster = do
    found ← reads (P.account_infos.get cluster default_account_info_name)
    elim found [
      | err e ↦
          if P.is_not_found e
          then requeue inst.ptr "Parent AccountInfo does not exist yet"
          else fail (wrapped "getting parent AccountInfo" e)
      | ok parent ↦ do
        lift_wrapped "creating or updating AccountInfo"
            (← writes (
              P.account_infos.create_or_update account_cluster
                (new_account_info default_account_info_name)
                (λ info. ok (mutate_child server_ca self parent info))))
        forget inst.ptr
        pure done
    ]

  unfoldable pub process : Context → Object → Exec P SubroutineResult
  unfolding must_get_clustered_name process_org process_child
  process ctx obj = do
    inst ← as_account obj
    cn ← must_get_clustered_name ctx obj
    cluster ← lift_wrapped "getting cluster" (← reads (P.get_cluster cn.cluster_id))
    ws ←
        lift_wrapped "getting Account's Workspace"
          (← reads (P.workspaces.get cluster inst.val.meta.name))
    let early = not (ws.phase == P.phase_initializing) && not (ws.phase == P.phase_ready)
    if early then requeue inst.ptr "Workspace not ready yet" else do
      location ← lift_fault (retrieve_current_workspace_path ws)
      let self = self_location inst.val ws cn.cluster_id location.0 location.1
      account_cluster ← lift (← reads (P.get_cluster ws.spec.cluster))
      if inst.val.spec.type == account_type_org
          then process_org inst self account_cluster
          else process_child inst self cluster account_cluster
