-- ===== src/Examples/Again.antt =====
-- Second runs for the organization "acme".
use account_operator.Base.{String, ◌≡◌, refl, ◌≢◌, arith, eq_iff}
use account_operator.Base.Text.{split, trim_space}
use account_operator.Platform.Memory.{
  memory, memory-AccountInfoLaws, memory-WorkspaceLaws, memory-OwnerLaws, memory-OwnerAgain,
}
use account_operator.Platform.Memory.Shelf.{get, without, start_of, save, write}
use account_operator.ClusteredName.{account}
use account_operator.Exec.{State, returns, done}
use account_operator.Subroutines.ManageAccountInfo
use account_operator.Subroutines.ManageAccountInfo.Again.{account_info_again}
use account_operator.Subroutines.Util.{get_workspace_type_name}
use account_operator.Subroutines.Workspace
use account_operator.Subroutines.Workspace.Again.{workspace_again}
use account_operator.Examples.{acme, at, state, ready_world}
use account_operator.Examples.Informing.{acme_informed, acme_located}
use account_operator.Examples.Provisioning.{acme_created}

-- The state after the first run that writes the AccountInfo.
abbrev informed : State memory
informed = (ManageAccountInfo.process memory "ca" (at "orgs") (account acme) (state ready_world)).1

informs_twice :
    (ManageAccountInfo.process memory "ca" (at "orgs") (account acme) informed).0 ≡ returns done
unfolding ManageAccountInfo.process ManageAccountInfo.retrieve_current_workspace_path split
    trim_space get write save start_of without
informs_twice = refl

c1-ne-orgs : ◌≢◌ {A = String} "c1" "orgs"
c1-ne-orgs h = ground (arith, eq_iff "c1" "orgs")

informed-Unchanged :
    ManageAccountInfo.Again.Unchanged memory "ca" ready_world informed.world informed.world
unfolding ManageAccountInfo.process ManageAccountInfo.retrieve_current_workspace_path split
    trim_space get write save start_of without
informed-Unchanged = record { clusters = λ n. refl; workspaces = λ c n. refl; infos = λ c. refl }

account_info_again_example :
    memory.account_infos.get "c1" "account"
      (ManageAccountInfo.process memory "ca" (at "orgs") (account acme) informed).1.world
    ≡ memory.account_infos.get "c1" "account" informed.world
account_info_again_example =
    account_info_again memory "ca" memory-AccountInfoLaws (at "orgs") acme (state ready_world)
      informed acme_located c1-ne-orgs acme_informed informed-Unchanged informs_twice

-- The state after the first run that writes the workspace.
abbrev created : State memory
created = (Workspace.process memory (at "orgs") (account acme) (state ready_world)).1

creates_twice : (Workspace.process memory (at "orgs") (account acme) created).0 ≡ returns done
unfolding Workspace.process Workspace.ensure_workspace Workspace.check_workspace_type_ready
    get_workspace_type_name get write save start_of without
creates_twice = refl

created-Unchanged : Workspace.Again.Unchanged memory ready_world created.world created.world "acme"
unfolding Workspace.process Workspace.ensure_workspace Workspace.check_workspace_type_ready
    get_workspace_type_name get write save start_of without
created-Unchanged = record { clusters = λ n. refl; workspaces = λ c. refl; infos = λ c. refl }

workspace_again_example :
    memory.workspaces.get "orgs" "acme"
      (Workspace.process memory (at "orgs") (account acme) created).1.world
    ≡ memory.workspaces.get "orgs" "acme" created.world
workspace_again_example =
    workspace_again memory memory-WorkspaceLaws memory-OwnerLaws memory-OwnerAgain (at "orgs") acme
      (state ready_world) created "orgs" "orgs" refl refl acme_created created-Unchanged
      creates_twice
