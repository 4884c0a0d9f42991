-- ===== src/Examples/Lineage.antt =====
-- The account "crew" below "team", two levels below the organization "acme".
use account_operator.Base.{◌≡◌, refl, ◌≢◌, inl, some}
use account_operator.Base.Text.{split, trim_space}
use account_operator.Meta.{Ref}
use account_operator.Api.Account.{Account, account_type_org, account_type_account, plain_account}
use account_operator.Kcp.{Workspace}
use account_operator.Platform.{ok}
use account_operator.Platform.Memory.{
  memory, memory-AccountInfoLaws, memory-WorkspaceLaws, memory-OwnerLaws,
}
use account_operator.Platform.Memory.Shelf.{get, without, start_of, save, write}
use account_operator.ClusteredName.{account}
use account_operator.Exec.{returns, done}
use account_operator.Subroutines.Lineage.{workspace_of_lineage}
use account_operator.Subroutines.ManageAccountInfo
use account_operator.Subroutines.Util.{get_workspace_type_name}
use account_operator.Subroutines.Workspace
use account_operator.Examples.{at, state}
use account_operator.Examples.Informing.{acme_location, acme_above_team, team_world}

abbrev pub crew : Ref Account
crew = record { ptr = 6; val = plain_account "crew" account_type_account }

pub crew_not_org : crew.val.spec.type ≢ account_type_org
crew_not_org = cc

crew_found : memory.get_cluster "c2" team_world ≡ ok "c2"
unfolding ManageAccountInfo.process ManageAccountInfo.retrieve_current_workspace_path split
    trim_space get write save start_of without
crew_found = refl

crew_created :
    (Workspace.process memory (at "c2") (account crew) (state team_world)).0 ≡ returns done
unfolding Workspace.process Workspace.ensure_workspace Workspace.check_workspace_type_ready
    get_workspace_type_name ManageAccountInfo.process
    ManageAccountInfo.retrieve_current_workspace_path split trim_space get write save start_of
    without
crew_created = refl

crew_below_acme :
    (ws : Workspace) × (memory.workspaces.get "c2" "crew"
        (Workspace.process memory (at "c2") (account crew) (state team_world)).1.world
      ≡ ok ws)
    × (ws.spec.type
        ≡ some (record {
          name = get_workspace_type_name "acme" account_type_account;
          path = "root:orgs";
        }))
crew_below_acme =
    workspace_of_lineage memory "ca" memory-AccountInfoLaws acme_location memory-WorkspaceLaws
      memory-OwnerLaws (at "c2") crew (state team_world) acme_above_team "c2" "c2" refl crew_found
      (inl refl) crew_not_org crew_created
