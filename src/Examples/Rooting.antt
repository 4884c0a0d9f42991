-- ===== src/Examples/Rooting.antt =====
-- The AccountInfos of "acme" and of "team" after their runs, and the account "crew" below them.
use account_operator.Base.{String, ◌≡◌, refl, arith, List, some}
use account_operator.Base.Text.{split, trim_space}
use account_operator.Api.Account.{account_type_account}
use account_operator.Api.AccountInfo.{AccountInfo, AccountLocation}
use account_operator.Kcp.{Workspace}
use account_operator.Platform.{ok}
use account_operator.Platform.Memory.{
  memory, memory-AccountInfoLaws, memory-AtomicInfoLaws, memory-WorkspaceLaws, memory-OwnerLaws,
  memory-KindLaws,
}
use account_operator.Platform.Memory.Shelf.{get, without, start_of, save, write}
use account_operator.ClusteredName.{account}
use account_operator.Controller.Runs.{RunsOn, none_yet, processes}
use account_operator.Controller.Runs.Roots.{Follows, runs-Rooted, workspace_of_root}
use account_operator.Exec.{State, returns, done}
use account_operator.Subroutines.Construct.{LimiterOption}
use account_operator.Subroutines.ManageAccountInfo
use account_operator.Subroutines.ManageAccountInfo.Locate.{Located}
use account_operator.Subroutines.ManageAccountInfo.Provision.{location}
use account_operator.Subroutines.ManageAccountInfo.Rooted.{Rooted}
use account_operator.Subroutines.Util.{get_workspace_type_name}
use account_operator.Subroutines.Workspace
use account_operator.Examples.{acme, team, at, state, ready_world}
use account_operator.Examples.Informing.{acme_addressed, acme_location, team_not_org}
use account_operator.Examples.Lineage.{crew, crew_not_org}
use account_operator.Examples.Running.{infos_subroutine, acme_informed, acme_read}

-- All clusters are those of "acme".
abbrev all_acme : String → AccountLocation
all_acme c = acme_location

acme_placed :
    (l : Located memory "ca" (at "orgs") acme (state ready_world))
    → acme_location ≡ location memory "ca" (at "orgs") acme (state ready_world) l
acme_placed l =
    let in_orgs : l.cluster_id ≡ "orgs" = cc (l.in_context) in
    ground (arith, in_orgs, l.addressed, acme_read l, acme_addressed)

ready-Rooted : Rooted memory all_acme ready_world
unfolding get
ready-Rooted c info h = absurd (ground arith)

-- "acme" is informed, and then "team" below it.
abbrev team_informed : State memory
team_informed = (ManageAccountInfo.process memory "ca" (at "c1") (account team) acme_informed).1

team_runs :
    RunsOn memory String
      (List LimiterOption)
      (Follows memory all_acme)
      (state ready_world)
      team_informed
team_runs =
    processes infos_subroutine (at "c1") (account team)
      (processes infos_subroutine (at "orgs") (account acme) (none_yet (state ready_world))
        (λ l. (λ _. acme_placed l, λ h. absurd (h refl))) refl)
      (λ l. (λ h. absurd (team_not_org h), λ _. refl)) refl

team_info :
    (info : AccountInfo) × (memory.account_infos.get "c2" "account" team_informed.world ≡ ok info)
unfolding ManageAccountInfo.process ManageAccountInfo.retrieve_current_workspace_path split
    trim_space get write save start_of without
team_info = (_, refl)

runs-Rooted_example : team_info.0.spec.organization ≡ acme_location
runs-Rooted_example =
    runs-Rooted memory all_acme memory-AccountInfoLaws memory-AtomicInfoLaws memory-WorkspaceLaws
      memory-KindLaws team_runs ready-Rooted "c2" team_info.0 team_info.1

crew_found : memory.get_cluster "c2" team_informed.world ≡ ok "c2"
unfolding ManageAccountInfo.process ManageAccountInfo.retrieve_current_workspace_path split
    trim_space get write save start_of without
crew_found = refl

crew_created : (Workspace.process memory (at "c2") (account crew) team_informed).0 ≡ returns done
unfolding Workspace.process Workspace.ensure_workspace Workspace.check_workspace_type_ready
    get_workspace_type_name ManageAccountInfo.process
    ManageAccountInfo.retrieve_current_workspace_path split trim_space get write save start_of
    without
crew_created = refl

workspace_of_root_example :
    (ws : Workspace) × (memory.workspaces.get "c2" "crew"
        (Workspace.process memory (at "c2") (account crew) team_informed).1.world
      ≡ ok ws)
    × (ws.spec.type
        ≡ some (record {
          name = get_workspace_type_name "acme" account_type_account;
          path = "root:orgs";
        }))
workspace_of_root_example =
    workspace_of_root memory all_acme memory-AccountInfoLaws memory-AtomicInfoLaws
      memory-WorkspaceLaws memory-KindLaws memory-OwnerLaws team_runs ready-Rooted (at "c2") crew
      "c2" "c2" refl crew_found crew_not_org crew_created
