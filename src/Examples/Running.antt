-- ===== src/Examples/Running.antt =====
-- Runs of several handlers, one after the other.
use account_operator.Base.{String, ◌≡◌, refl, arith, eq_iff, List, [], inl}
use account_operator.Platform.{ok}
use account_operator.Platform.Memory.{
  memory, MemoryWorld, memory-AccountInfoLaws, memory-WorkspaceLaws, memory-WorkspaceTypeLaws,
  memory-OwnerLaws, memory-KindLaws, memory-ClusterLaws,
}
use account_operator.ClusteredName.{account}
use account_operator.Controller.{Subroutine, manage_account_info, workspace, workspace_type}
use account_operator.Controller.Runs.{RunsOn, none_yet, processes, finalizes}
use account_operator.Controller.Runs.Infos.{Avoids, infos_keep}
use account_operator.Controller.Runs.Others.{MissesWorkspace, MissesTypes, OnOthers, others_keep}
use account_operator.Controller.Runs.Stays.{workspace_stays, types_stay}
use account_operator.Exec.{State}
use account_operator.Subroutines.Agreement.{TypeFound}
use account_operator.Subroutines.Construct.{LimiterOption}
use account_operator.Subroutines.ManageAccountInfo
use account_operator.Subroutines.ManageAccountInfo.Locate.{Located}
use account_operator.Subroutines.Util.{get_workspace_type_name}
use account_operator.Api.Account.{account_type_org}
use account_operator.Subroutines.Workspace
use account_operator.Subroutines.Workspace.Create.{Created}
use account_operator.Subroutines.Workspace.Prepare.{Prepared}
use account_operator.Subroutines.WorkspaceType
use account_operator.Examples.{acme, at, state, empty_world, ready_world, workspace_of}
use account_operator.Examples.Informing.{acme_owned}
use account_operator.Examples.Provisioning.{
  acme_created, acme_typed, acme_chosen, beta, beta-ne-acme,
}

abbrev pub infos_subroutine : Subroutine String (List LimiterOption)
infos_subroutine = manage_account_info (record { mgr = "mgr"; server_ca = "ca"; limiter = [] })

abbrev types_subroutine : Subroutine String (List LimiterOption)
types_subroutine = workspace_type (record { mgr = "mgr" })

abbrev workspace_subroutine : Subroutine String (List LimiterOption)
workspace_subroutine = workspace (record { mgr = "mgr"; limiter = [] })

cluster_is_id :
    (id : String) (w : MemoryWorld) {c : String} → memory.get_cluster id w ≡ ok c → c ≡ id
cluster_is_id id w h = ground arith

pub acme_read :
    (l : Located memory "ca" (at "orgs") acme (state ready_world))
    → l.workspace ≡ workspace_of "acme" "c1" "https://kcp/clusters/root:orgs:acme"
acme_read l =
    let e : l.cluster ≡ "orgs" =
      cc (cluster_is_id l.cluster_id ready_world l.found, l.in_context) in
    let read : memory.workspaces.get "orgs" "acme" ready_world ≡ ok l.workspace = rw e at l.owned in
    cc (read, acme_owned)

-- The workspace of "acme" has the cluster "c1".
acme_in_c1 :
    (l : Located memory "ca" (at "orgs") acme (state ready_world)) → l.account_cluster ≡ "c1"
acme_in_c1 l =
    let there : l.workspace.spec.cluster ≡ "c1" = cc (acme_read l) in
    cc (cluster_is_id l.workspace.spec.cluster ready_world l.reached, there)

acme-Avoids_c2 : Avoids memory "c2" infos_subroutine (at "orgs") (account acme) (state ready_world)
acme-Avoids_c2 l h = ground (arith, acme_in_c1 l, eq_iff "c1" "c2")

abbrev pub acme_informed : State memory
acme_informed =
    (ManageAccountInfo.process memory "ca" (at "orgs") (account acme) (state ready_world)).1

abbrev types_after : State memory
types_after = (WorkspaceType.process memory (at "orgs") (account acme) acme_informed).1

infos_run :
    RunsOn memory String (List LimiterOption) (Avoids memory "c2") (state ready_world) types_after
infos_run =
    processes types_subroutine (at "orgs") (account acme)
      (processes infos_subroutine (at "orgs") (account acme) (none_yet (state ready_world))
        acme-Avoids_c2 refl)
      tt refl

infos_keep_example :
    memory.account_infos.get "c2" "account" types_after.world
    ≡ memory.account_infos.get "c2" "account" ready_world
infos_keep_example =
    infos_keep memory "c2" memory-AccountInfoLaws memory-WorkspaceLaws memory-KindLaws "account"
      infos_run

-- The workspace of "acme" is created, and then "beta" gets its types and loses its workspace.
abbrev acme_made : State memory
acme_made = (Workspace.process memory (at "orgs") (account acme) (state ready_world)).1

abbrev beta_typed : State memory
beta_typed = (WorkspaceType.process memory (at "orgs") (account beta) acme_made).1

abbrev beta_gone : State memory
beta_gone = (Workspace.finalize memory (at "orgs") (account beta) beta_typed).1

beta_runs : RunsOn memory String (List LimiterOption) (OnOthers memory "acme") acme_made beta_gone
beta_runs =
    finalizes workspace_subroutine (at "orgs") (account beta)
      (processes types_subroutine (at "orgs") (account beta) (none_yet acme_made) beta-ne-acme refl)
      beta-ne-acme refl

-- After the workspace of "acme", its AccountInfo is written, and "beta" loses its workspace.
abbrev acme_known : State memory
acme_known = (ManageAccountInfo.process memory "ca" (at "orgs") (account acme) acme_made).1

abbrev beta_away : State memory
beta_away = (Workspace.finalize memory (at "orgs") (account beta) acme_known).1

acme_runs :
    RunsOn memory String (List LimiterOption) (MissesWorkspace memory "acme") acme_made beta_away
acme_runs =
    finalizes workspace_subroutine (at "orgs") (account beta)
      (processes infos_subroutine (at "orgs") (account acme) (none_yet acme_made) tt refl)
      beta-ne-acme refl

workspace_stays_example :
    (p : Prepared memory (at "orgs") acme (state ready_world)) × Created memory
      (at "orgs")
      acme
      (state ready_world)
      p
      beta_away.world
workspace_stays_example =
    workspace_stays memory memory-WorkspaceLaws memory-WorkspaceTypeLaws memory-OwnerLaws
      memory-KindLaws (at "orgs") acme (state ready_world) acme_created acme_runs

others_keep_example :
    (memory.workspaces.get "orgs" "acme" beta_gone.world
      ≡ memory.workspaces.get "orgs" "acme" acme_made.world)
    × (memory.workspace_types.get "orgs"
          (get_workspace_type_name "acme" account_type_org)
          beta_gone.world
        ≡ memory.workspace_types.get "orgs"
            (get_workspace_type_name "acme" account_type_org)
            acme_made.world)
    × (memory.accounts.get "orgs" "beta" beta_gone.world
        ≡ memory.accounts.get "orgs" "beta" acme_made.world)
others_keep_example =
    others_keep memory memory-WorkspaceLaws memory-WorkspaceTypeLaws memory-KindLaws "acme" "orgs"
      account_type_org (inl refl) "beta" beta_runs

-- The workspace types of "acme" are made, and then those of "beta".
abbrev acme_typed_state : State memory
acme_typed_state = (WorkspaceType.process memory (at "orgs") (account acme) (state empty_world)).1

abbrev both_typed : State memory
both_typed = (WorkspaceType.process memory (at "orgs") (account beta) acme_typed_state).1

abbrev both_made : State memory
both_made = (Workspace.process memory (at "orgs") (account acme) both_typed).1

types_runs :
    RunsOn memory String (List LimiterOption) (MissesTypes memory "acme") acme_typed_state both_made
types_runs =
    processes workspace_subroutine (at "orgs") (account acme)
      (processes types_subroutine (at "orgs") (account beta) (none_yet acme_typed_state)
        (λ _. beta-ne-acme) refl)
      tt refl

types_stay_example :
    TypeFound memory (get_workspace_type_name "acme" account_type_org) empty_world both_made.world
types_stay_example =
    types_stay memory memory-WorkspaceLaws memory-WorkspaceTypeLaws memory-ClusterLaws
      memory-KindLaws (at "orgs") acme (state empty_world) refl acme_typed types_runs acme_chosen
      refl (inl refl)
