-- ===== src/Examples/Rollout.antt =====
-- The account "team" on its way to a ready workspace.
use account_operator.Base.{◌≡◌, refl, inr, [], ◌∷◌, arith, ◌≢◌}
use account_operator.Base.Text.{split, trim_space}
use account_operator.Api.Account.{account_type_org, account_type_account}
use account_operator.Api.AccountInfo.{AccountInfo, AccountLocation, new_account_info}
use account_operator.Platform.{ok}
use account_operator.Platform.Memory.{
  memory, MemoryWorld, memory-AccountInfoLaws, memory-WorkspaceTypeLaws, memory-WorkspaceLaws,
  memory-OwnerLaws, memory-ClusterLaws,
}
use account_operator.Platform.Memory.Shelf.{get, without, start_of, save, write}
use account_operator.Subroutines.ManageAccountInfo.{retrieve_current_workspace_path}
use account_operator.Subroutines.ManageAccountInfo.Locate.{Located}
use account_operator.Subroutines.Rollout.{Available, Settled, Done, rollout_ends}
use account_operator.Subroutines.Rollout.Steps.{TypesWritten, Written, InfoWritten}
use account_operator.Subroutines.Util.{get_workspace_type_name}
use account_operator.Subroutines.Workspace.Prepare.{Chosen, TypeReady, update}
use account_operator.Subroutines.WorkspaceReady.Ready.{ReadyWorkspace}
use account_operator.Subroutines.WorkspaceType.{
  generate_org_workspace_type, generate_account_workspace_type,
}
use account_operator.Examples.{
  acme, team, at, state, empty_world, ready_world, workspace_of, ready_type,
}

abbrev acme_home : AccountLocation
acme_home = record {
  name = "acme";
  generated_cluster_id = "c1";
  origin_cluster_id = "orgs";
  path = "root:orgs:acme";
  url = "https://kcp/clusters/root:orgs:acme";
  type = account_type_org;
}

abbrev acme_info : AccountInfo
acme_info = record (new_account_info "account") {
  spec = record (new_account_info "account").spec { account = acme_home; organization = acme_home };
}

-- The organization "acme" is there with its AccountInfo.
abbrev acme_world : MemoryWorld
acme_world = record ready_world {
  workspaces = ("orgs", workspace_of "acme" "c1" "https://kcp/clusters/root:orgs:acme") ∷ [];
  account_infos = ("c1", acme_info) ∷ [];
}

-- And so is the workspace of "team".
abbrev team_world : MemoryWorld
team_world = record ready_world { account_infos = ("c1", acme_info) ∷ [] }

types_written : TypesWritten memory "acme" empty_world
unfolding generate_org_workspace_type generate_account_workspace_type get write save start_of
    without get_workspace_type_name
types_written = record {
  cluster = "root:orgs";
  found = refl;
  org_written = ("created", refl);
  account_written = ("created", refl);
}

acme_read : memory.account_infos.get "c1" "account" team_world ≡ ok acme_info
unfolding get
acme_read = refl

acme_read_before : memory.account_infos.get "c1" "account" acme_world ≡ ok acme_info
unfolding get
acme_read_before = refl

team_not_org : team.val.spec.type ≢ account_type_org
team_not_org = cc

acme_named : acme_info.spec.organization.name ≢ ""
acme_named = cc

abbrev team_chosen : Chosen memory team.val "c1" acme_world
team_chosen = record {
  type_name = get_workspace_type_name "acme" account_type_account;
  org_name = "acme";
  named = refl;
  choice = inr (acme_info, team_not_org, acme_read_before, acme_named, refl);
}

team_update : Written (update memory team.val team_chosen.type_name "c1" acme_world)
unfolding get write save start_of without
team_update = ("created", refl)

located_at :
    (l : Located memory "ca" (at "c1") team (state team_world))
    → (l.cluster ≡ "c1") × (l.account_cluster ≡ "c2")
unfolding get
located_at l = (
  ground (arith, l.in_context, l.found),
  ground (arith, l.in_context, l.found, l.owned, l.reached),
)

team_info :
    (l : Located memory "ca" (at "c1") team (state team_world))
    → InfoWritten memory "ca" (at "c1") team (state team_world) l
unfolding get write save start_of without
team_info l =
    let (e, e') = located_at l in
    inr (acme_info, team_not_org, rw e acme_read, rw e' ("created", refl))

abbrev team-Available :
    Available memory "ca"
      (at "orgs")
      acme
      (at "c1")
      "c1"
      "c1"
      team
      (state empty_world)
      (state acme_world)
      (state team_world)
      (state team_world)
team-Available = record {
  types = types_written;
  found = refl;
  chosen = team_chosen;
  same_org = refl;
  known = inr refl;
  workspace = team_update;
  info = team_info;
}

team-TypeReady : TypeReady memory team_chosen.type_name acme_world
unfolding get get_workspace_type_name
team-TypeReady = record {
  cluster = "root:orgs";
  found = refl;
  wst = ready_type "acme-account";
  read = refl;
  ready = refl;
}

team-Located : Located memory "ca" (at "c1") team (state team_world)
unfolding get retrieve_current_workspace_path split trim_space
team-Located = record {
  cluster_id = "c1";
  in_context = refl;
  cluster = "c1";
  found = refl;
  workspace = workspace_of "team" "c2" "https://kcp/clusters/root:orgs:acme:team";
  owned = refl;
  phase = inr refl;
  path = "root:orgs:acme:team";
  url = "https://kcp/clusters/root:orgs:acme:team";
  addressed = refl;
  account_cluster = "c2";
  reached = refl;
}

team-ReadyWorkspace : ReadyWorkspace memory (at "c1") team (state team_world)
unfolding get
team-ReadyWorkspace = record {
  cluster_id = "c1";
  in_context = refl;
  cluster = "c1";
  found = refl;
  workspace = workspace_of "team" "c2" "https://kcp/clusters/root:orgs:acme:team";
  read = refl;
  phase = refl;
}

team-Settled :
    Settled memory "ca"
      (at "orgs")
      acme
      (at "c1")
      "c1"
      "c1"
      team
      (state empty_world)
      (state acme_world)
      (state team_world)
      (state team_world)
      team-Available
team-Settled = record {
  type_ready = λ _. team-TypeReady;
  scheduled = λ _ _. team-Located;
  initialized = λ _ _ _. team-ReadyWorkspace;
}

rollout_ends_example :
    Done memory "ca"
      (at "orgs")
      acme
      (at "c1")
      "c1"
      "c1"
      team
      (state empty_world)
      (state acme_world)
      (state team_world)
      (state team_world)
rollout_ends_example =
    rollout_ends memory "ca" (at "orgs") acme (at "c1") "c1" "c1" team (state empty_world)
      (state acme_world) (state team_world) (state team_world) memory-WorkspaceTypeLaws
      memory-ClusterLaws memory-WorkspaceLaws memory-OwnerLaws memory-AccountInfoLaws refl refl
      team-Available team-Settled
