-- ===== src/Examples/Finalizing.antt =====
-- Runs that finalize an organization.
use account_operator.Base.{◌≡◌, refl, ◌≢◌, ◌↔◌, inl, [], All}
use account_operator.Meta.{Ref}
use account_operator.Api.Account.{account_type_org}
use account_operator.Api.AccountInfo.{AccountInfo, new_account_info}
use account_operator.Platform.Memory.{memory, memory-WorkspaceTypeLaws, memory-WorkspaceLaws}
use account_operator.Platform.Memory.Shelf.{not_found, get, without, remove}
use account_operator.ClusteredName.{account, account_info}
use account_operator.Exec.{returns, done, stop_with_requeue}
use account_operator.Subroutines.Util.{get_workspace_type_name}
use account_operator.Platform.Laws.{IsGoing}
use account_operator.Kcp.{Workspace}
use account_operator.Subroutines.Contract.{Limited, account-Limited, finalize_account_info-Limited}
use account_operator.Subroutines.ManageAccountInfo
use account_operator.Subroutines.Workspace
use account_operator.Subroutines.Workspace.Finalize.{
  InCluster, FoundAbsent, finalize-Absent, finalize-IsGoing,
}
use account_operator.Subroutines.Workspace.Deletion.{Available, Settled}
use account_operator.Subroutines.WorkspaceType.Deletion.{TypesDeleted}
use account_operator.Config.{new_operator_config}
use account_operator.Controller.Deletion.{EndsAt, Deletable, deletion_ends}
use account_operator.Controller.Dispatch.{finalizer}
use account_operator.Examples.Operating.{new_limiter, reconciler, reconciler_made}
use account_operator.Subroutines.WorkspaceReady
use account_operator.Subroutines.WorkspaceType
use account_operator.Subroutines.WorkspaceType.Remove.{
  OrgTypesGone, finalize-OrgTypesGone, not_org_idle,
}
use account_operator.Subroutines.FinalizeAccountInfo
use account_operator.Subroutines.FinalizeAccountInfo.Childless.{Childless, finalize-Childless}
use account_operator.Examples.{acme, team, at, state, workspace_of, empty_world, ready_world}

acme_untyped :
    (WorkspaceType.finalize memory (at "orgs") (account acme) (state ready_world)).0 ≡ returns done
unfolding WorkspaceType.finalize WorkspaceType.delete_workspace_type get_workspace_type_name get
    remove without
acme_untyped = refl

finalize-OrgTypesGone_example :
    OrgTypesGone memory "acme" ready_world
      (WorkspaceType.finalize memory (at "orgs") (account acme) (state ready_world)).1.world
finalize-OrgTypesGone_example =
    finalize-OrgTypesGone memory memory-WorkspaceTypeLaws (at "orgs") acme (state ready_world) refl
      acme_untyped

team_not_org : team.val.spec.type ≢ account_type_org
team_not_org = cc

team_idle :
    (WorkspaceType.finalizers team.val ≡ [])
    × (WorkspaceType.process memory (at "c1") (account team) (state ready_world)
        ≡ (returns done, state ready_world))
    × (WorkspaceType.finalize memory (at "c1") (account team) (state ready_world)
        ≡ (returns done, state ready_world))
team_idle = not_org_idle memory (at "c1") team (state ready_world) team_not_org

acme_absent :
    (Workspace.finalize memory (at "orgs") (account acme) (state empty_world)).0 ≡ returns done
unfolding Workspace.finalize get
acme_absent = refl

finalize-Absent_example :
    ((Workspace.finalize memory (at "orgs") (account acme) (state empty_world)).0 ≡ returns done)
    ↔ FoundAbsent memory (at "orgs") acme (state empty_world)
finalize-Absent_example = finalize-Absent memory (at "orgs") acme (state empty_world)

acme_found_absent : FoundAbsent memory (at "orgs") acme (state empty_world)
acme_found_absent = (finalize-Absent memory (at "orgs") acme (state empty_world)).0 acme_absent

acme_going :
    (Workspace.finalize memory (at "orgs") (account acme) (state ready_world)).0
    ≡ returns (stop_with_requeue 1000000000 "Waiting for Workspace deletion")
unfolding Workspace.finalize get remove without
acme_going = refl

acme_leaves :
    (i : InCluster memory (at "orgs") acme (state ready_world)) × IsGoing
      (λ (a : Workspace). a.meta)
      memory.is_not_found
      memory.workspaces
      (memory.workspaces.get i.cluster "acme"
        (Workspace.finalize memory (at "orgs") (account acme) (state ready_world)).1.world)
acme_leaves =
    finalize-IsGoing memory (at "orgs") acme (state ready_world) memory-WorkspaceLaws 1000000000
      "Waiting for Workspace deletion" acme_going

acme-Available : Available memory "orgs" "acme" "orgs" ready_world
unfolding get remove without
acme-Available = record {
  found = refl;
  readable = inl (workspace_of "acme" "c1" "https://kcp/clusters/root:orgs:acme", refl, refl);
}

-- The API server has removed every workspace.
acme-Settled :
    Settled memory "orgs" "acme" "orgs"
      (Workspace.finalize memory (at "orgs") (account acme) (state ready_world)).1.world
      empty_world
unfolding get
acme-Settled = record {
  found = refl;
  settled = λ _. record { error = not_found; absent = refl; not_found = refl };
}

acme_types : TypesDeleted memory "acme" ready_world
unfolding get remove without get_workspace_type_name
acme_types = record { cluster = "root:orgs"; found = refl; org_deleted = tt; account_deleted = tt }

acme-Deletable :
    Deletable memory (at "orgs") "orgs" "orgs" acme (state ready_world) (state empty_world)
acme-Deletable = record {
  in_context = refl;
  types = λ _. acme_types;
  workspace = acme-Available;
  settled = acme-Settled;
}

deletion_ends_example :
    All
      (λ x.
        EndsAt memory
          (at "orgs")
          (account acme)
          (state ready_world)
          (state empty_world)
          (finalizer memory x))
      reconciler.lifecycle.subroutines
deletion_ends_example =
    deletion_ends memory (at "orgs") "orgs" "orgs" acme (state ready_world) (state empty_world)
      memory-WorkspaceLaws acme-Deletable new_limiter "mgr" "ca" new_operator_config reconciler_made

abbrev acme_info : Ref AccountInfo
acme_info = record { ptr = 3; val = new_account_info "account" }

finalize-Childless_example :
    ((FinalizeAccountInfo.finalize memory (at "c1") (account_info acme_info) (state ready_world)).0
      ≡ returns done)
    ↔ Childless memory (at "c1") acme_info (state ready_world)
finalize-Childless_example = finalize-Childless memory (at "c1") acme_info (state ready_world)

acme-Limited :
    Limited acme.ptr
      (state ready_world)
      (Workspace.process memory (at "orgs") (account acme) (state ready_world))
    × Limited acme.ptr
        (state ready_world)
        (Workspace.finalize memory (at "orgs") (account acme) (state ready_world))
    × Limited acme.ptr
        (state ready_world)
        (ManageAccountInfo.process memory "ca" (at "orgs") (account acme) (state ready_world))
    × Limited acme.ptr
        (state ready_world)
        (WorkspaceReady.process memory (at "orgs") (account acme) (state ready_world))
acme-Limited = account-Limited memory (at "orgs") "orgs" refl (state ready_world) "ca" acme

acme_info-Limited :
    Limited acme_info.ptr
      (state ready_world)
      (FinalizeAccountInfo.finalize memory (at "c1") (account_info acme_info) (state ready_world))
acme_info-Limited = finalize_account_info-Limited memory (at "c1") acme_info (state ready_world)
