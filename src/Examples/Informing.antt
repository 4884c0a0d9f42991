-- ===== src/Examples/Informing.antt =====
-- Runs that write the AccountInfos of an organization and of an account below it.
use account_operator.Base.{String, ◌≡◌, refl, ◌≢◌, ◌⊎◌, inl, inr, All, [], ◌∷◌}
use account_operator.Base.Text.{split, trim_space}
use account_operator.Api.Account.{account_type_org}
use account_operator.Api.AccountInfo.{AccountLocation}
use account_operator.Platform.{ok}
use account_operator.Platform.Memory.{memory, MemoryWorld, memory-AccountInfoLaws}
use account_operator.Platform.Memory.Shelf.{get, without, start_of, save, write}
use account_operator.ClusteredName.{account}
use account_operator.Exec.{returns, done, stop_with_requeue}
use account_operator.Subroutines.ManageAccountInfo
use account_operator.Subroutines.ManageAccountInfo.Locate.{Located}
use account_operator.Subroutines.ManageAccountInfo.Provision.{
  location, process-OrgInfo, process-ChildInfo, process_elsewhere,
}
use account_operator.Subroutines.ManageAccountInfo.Write.{OrgInfo, ChildInfo}
use account_operator.Subroutines.ManageAccountInfo.Waits.{process_requeue}
use account_operator.Subroutines.ManageAccountInfo.Hierarchy.{
  Hierarchy, root, child, BelongsTo, Hierarchy-BelongsTo,
}
use account_operator.Examples.{acme, team, at, state, ready_world, workspace_of}

pub acme_informed :
    (ManageAccountInfo.process memory "ca" (at "orgs") (account acme) (state ready_world)).0
    ≡ returns done
unfolding ManageAccountInfo.process ManageAccountInfo.retrieve_current_workspace_path split
    trim_space get write save start_of without
acme_informed = refl

-- The world in which "acme" has its AccountInfo.
abbrev pub acme_world : MemoryWorld
acme_world =
    (ManageAccountInfo.process memory "ca" (at "orgs") (account acme) (state ready_world)).1.world

pub acme_owned :
    memory.workspaces.get "orgs" "acme" ready_world
    ≡ ok (workspace_of "acme" "c1" "https://kcp/clusters/root:orgs:acme")
unfolding get
acme_owned = refl

pub acme_addressed :
    ManageAccountInfo.retrieve_current_workspace_path
      (workspace_of "acme" "c1" "https://kcp/clusters/root:orgs:acme")
    ≡ ok ("root:orgs:acme", "https://kcp/clusters/root:orgs:acme")
unfolding ManageAccountInfo.retrieve_current_workspace_path split trim_space
acme_addressed = refl

abbrev pub acme_located : Located memory "ca" (at "orgs") acme (state ready_world)
acme_located = record {
  cluster_id = "orgs";
  in_context = refl;
  cluster = "orgs";
  found = refl;
  workspace = workspace_of "acme" "c1" "https://kcp/clusters/root:orgs:acme";
  owned = acme_owned;
  phase = inr refl;
  path = "root:orgs:acme";
  url = "https://kcp/clusters/root:orgs:acme";
  addressed = acme_addressed;
  account_cluster = "c1";
  reached = refl;
}

team_informed :
    (ManageAccountInfo.process memory "ca" (at "c1") (account team) (state acme_world)).0
    ≡ returns done
unfolding ManageAccountInfo.process ManageAccountInfo.retrieve_current_workspace_path split
    trim_space get write save start_of without
team_informed = refl

team_owned :
    memory.workspaces.get "c1" "team" acme_world
    ≡ ok (workspace_of "team" "c2" "https://kcp/clusters/root:orgs:acme:team")
unfolding ManageAccountInfo.process ManageAccountInfo.retrieve_current_workspace_path split
    trim_space get write save start_of without
team_owned = refl

team_addressed :
    ManageAccountInfo.retrieve_current_workspace_path
      (workspace_of "team" "c2" "https://kcp/clusters/root:orgs:acme:team")
    ≡ ok ("root:orgs:acme:team", "https://kcp/clusters/root:orgs:acme:team")
unfolding ManageAccountInfo.retrieve_current_workspace_path split trim_space
team_addressed = refl

team_found : memory.get_cluster "c1" acme_world ≡ ok "c1"
unfolding ManageAccountInfo.process ManageAccountInfo.retrieve_current_workspace_path split
    trim_space get write save start_of without
team_found = refl

team_reached : memory.get_cluster "c2" acme_world ≡ ok "c2"
unfolding ManageAccountInfo.process ManageAccountInfo.retrieve_current_workspace_path split
    trim_space get write save start_of without
team_reached = refl

abbrev team_located : Located memory "ca" (at "c1") team (state acme_world)
team_located = record {
  cluster_id = "c1";
  in_context = refl;
  cluster = "c1";
  found = team_found;
  workspace = workspace_of "team" "c2" "https://kcp/clusters/root:orgs:acme:team";
  owned = team_owned;
  phase = inr refl;
  path = "root:orgs:acme:team";
  url = "https://kcp/clusters/root:orgs:acme:team";
  addressed = team_addressed;
  account_cluster = "c2";
  reached = team_reached;
}

abbrev pub acme_location : AccountLocation
acme_location = record {
  name = "acme";
  generated_cluster_id = "c1";
  origin_cluster_id = "orgs";
  path = "root:orgs:acme";
  url = "https://kcp/clusters/root:orgs:acme";
  type = "org";
}

abbrev pub team_world : MemoryWorld
team_world =
    (ManageAccountInfo.process memory "ca" (at "c1") (account team) (state acme_world)).1.world

pub team_not_org : team.val.spec.type ≢ account_type_org
team_not_org = cc

pub acme_above_team : Hierarchy memory "ca" acme_location ("c2" ∷ "c1" ∷ []) team_world
acme_above_team =
    child (at "c1") team (state acme_world) team_located
      (root (at "orgs") acme (state ready_world) acme_located refl acme_informed refl) team_not_org
      team_informed (inl refl)

Hierarchy-BelongsTo_example :
    All (BelongsTo memory "ca" acme_location team_world) ("c2" ∷ "c1" ∷ [])
Hierarchy-BelongsTo_example =
    Hierarchy-BelongsTo memory "ca" memory-AccountInfoLaws acme_location acme_above_team

process-OrgInfo_example :
    (l : Located memory "ca" (at "orgs") acme (state ready_world)) × OrgInfo memory "ca"
      (location memory "ca" (at "orgs") acme (state ready_world) l)
      l.account_cluster
      ready_world
      acme_world
process-OrgInfo_example =
    process-OrgInfo memory "ca" memory-AccountInfoLaws (at "orgs") acme (state ready_world) refl
      acme_informed

process-ChildInfo_example :
    (l : Located memory "ca" (at "c1") team (state acme_world)) × ChildInfo memory "ca"
      (location memory "ca" (at "c1") team (state acme_world) l)
      l.cluster
      l.account_cluster
      acme_world
      team_world
process-ChildInfo_example =
    process-ChildInfo memory "ca" memory-AccountInfoLaws (at "c1") team (state acme_world)
      team_not_org team_informed

team_keeps_parent :
    ((l : Located memory "ca" (at "c1") team (state acme_world)) × (l.account_cluster ≡ "c1")
      × ◌≡◌ {A = String} "account" "account")
    ⊎ (memory.account_infos.get "c1" "account" team_world
        ≡ memory.account_infos.get "c1" "account" acme_world)
team_keeps_parent =
    process_elsewhere memory "ca" memory-AccountInfoLaws (at "c1") team (state acme_world) "c1"
      "account"

-- Before "acme" has its AccountInfo, "team" has to wait.
team_waits :
    (ManageAccountInfo.process memory "ca" (at "c1") (account team) (state ready_world)).0
    ≡ returns (stop_with_requeue 1000000000 "Parent AccountInfo does not exist yet")
unfolding ManageAccountInfo.process ManageAccountInfo.retrieve_current_workspace_path split
    trim_space get
team_waits = refl

waits_unchanged :
    (ManageAccountInfo.process memory "ca" (at "c1") (account team) (state ready_world)).1.world
    ≡ ready_world
waits_unchanged =
    process_requeue memory "ca" (at "c1") (account team) (state ready_world) 1000000000
      "Parent AccountInfo does not exist yet" team_waits
