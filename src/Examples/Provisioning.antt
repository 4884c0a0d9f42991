-- ===== src/Examples/Provisioning.antt =====
-- Runs that provision an organization and an account.
use account_operator.Base.{inl, arith, eq_iff, ◌≢◌, ◌≡◌, refl, ◌⊎◌, ◌↔◌, [], ◌∷◌}
use account_operator.Platform.Memory.{
  memory, memory-WorkspaceTypeLaws, memory-WorkspaceLaws, memory-OwnerLaws, memory-ClusterLaws,
}
use account_operator.Platform.Memory.Shelf.{get, without, start_of, save, write}
use account_operator.ClusteredName.{account}
use account_operator.Exec.{State, returns, done}
use account_operator.Meta.{Ref}
use account_operator.Subroutines.Util.{get_workspace_type_name}
use account_operator.Subroutines.Workspace
use account_operator.Subroutines.Workspace.Create.{Created, process-Prepared, process-Created}
use account_operator.Subroutines.Workspace.Prepare.{Chosen, Prepared}
use account_operator.Subroutines.WorkspaceReady
use account_operator.Subroutines.WorkspaceReady.Ready.{
  ReadyWorkspace, process-ReadyWorkspace, process_observed,
}
use account_operator.Subroutines.Agreement.{TypeFound, process-TypeFound}
use account_operator.Api.Account.{Account, account_type_org, plain_account}
use account_operator.Subroutines.WorkspaceType
use account_operator.Subroutines.WorkspaceType.Again.{process_again}
use account_operator.Platform.{ok}
use account_operator.Subroutines.WorkspaceType.Provision.{OrgTypes, process-OrgTypes}
use account_operator.Metrics.{observe, workspace_ready_duration}
use account_operator.Examples.{acme, at, state, empty_world, ready_world}

pub acme_typed :
    (WorkspaceType.process memory (at "orgs") (account acme) (state empty_world)).0 ≡ returns done
unfolding WorkspaceType.process WorkspaceType.create_or_patch_workspace_type
    WorkspaceType.generate_org_workspace_type WorkspaceType.generate_account_workspace_type
    get_workspace_type_name get write save start_of without
acme_typed = refl

process-OrgTypes_example :
    OrgTypes memory "acme" empty_world
      (WorkspaceType.process memory (at "orgs") (account acme) (state empty_world)).1.world
process-OrgTypes_example =
    process-OrgTypes memory memory-WorkspaceTypeLaws memory-ClusterLaws (at "orgs") acme
      (state empty_world) refl acme_typed

abbrev pub acme_chosen : Chosen memory acme.val "orgs" ready_world
acme_chosen = record {
  type_name = get_workspace_type_name "acme" account_type_org;
  org_name = "acme";
  named = refl;
  choice = inl (refl, refl);
}

acme-TypeFound :
    TypeFound memory
      (get_workspace_type_name "acme" account_type_org)
      empty_world
      (WorkspaceType.process memory (at "orgs") (account acme) (state empty_world)).1.world
acme-TypeFound =
    process-TypeFound memory memory-WorkspaceTypeLaws memory-ClusterLaws (at "orgs") acme
      (state empty_world) refl acme_typed acme_chosen refl (inl refl)

pub acme_created :
    (Workspace.process memory (at "orgs") (account acme) (state ready_world)).0 ≡ returns done
unfolding Workspace.process Workspace.ensure_workspace Workspace.check_workspace_type_ready
    get_workspace_type_name get write save start_of without
acme_created = refl

process-Created_example :
    (p : Prepared memory (at "orgs") acme (state ready_world)) × Created memory
      (at "orgs")
      acme
      (state ready_world)
      p
      (Workspace.process memory (at "orgs") (account acme) (state ready_world)).1.world
process-Created_example =
    process-Created memory (at "orgs") acme (state ready_world) memory-WorkspaceLaws
      memory-OwnerLaws acme_created

process-Prepared_example :
    ((Workspace.process memory (at "orgs") (account acme) (state empty_world)).1.world
      ≡ empty_world)
    ⊎ Prepared memory (at "orgs") acme (state empty_world)
process-Prepared_example = process-Prepared memory (at "orgs") acme (state empty_world)

acme_ready :
    (WorkspaceReady.process memory (at "orgs") (account acme) (state ready_world)).0 ≡ returns done
unfolding WorkspaceReady.process get
acme_ready = refl

process-ReadyWorkspace_example :
    ((WorkspaceReady.process memory (at "orgs") (account acme) (state ready_world)).0
      ≡ returns done)
    ↔ ReadyWorkspace memory (at "orgs") acme (state ready_world)
process-ReadyWorkspace_example = process-ReadyWorkspace memory (at "orgs") acme (state ready_world)

acme_observed :
    (WorkspaceReady.process memory (at "orgs") (account acme) (state ready_world)).1 ≡ record {
      world = ready_world;
      limiter = [];
      samples = observe workspace_ready_duration ("org" ∷ []) 7 ∷ [];
    }
acme_observed = process_observed memory (at "orgs") acme (state ready_world) acme_ready

abbrev pub beta : Ref Account
beta = record { ptr = 4; val = plain_account "beta" account_type_org }

pub beta-ne-acme : beta.val.meta.name ≢ "acme"
beta-ne-acme h = ground (arith, eq_iff "beta" "acme")

-- The state after the first run for "acme".
abbrev acme_processed : State memory
acme_processed = (WorkspaceType.process memory (at "orgs") (account acme) (state empty_world)).1

acme_typed_again :
    (WorkspaceType.process memory (at "orgs") (account acme) acme_processed).0 ≡ returns done
unfolding WorkspaceType.process WorkspaceType.create_or_patch_workspace_type
    WorkspaceType.generate_org_workspace_type WorkspaceType.generate_account_workspace_type
    get_workspace_type_name get write save start_of without
acme_typed_again = refl

orgs_found : memory.get_cluster "root:orgs" acme_processed.world ≡ ok "root:orgs"
unfolding WorkspaceType.process WorkspaceType.create_or_patch_workspace_type
    WorkspaceType.generate_org_workspace_type WorkspaceType.generate_account_workspace_type
    get_workspace_type_name get write save start_of without
orgs_found = refl

process_again_example :
    memory.workspace_types.get "root:orgs" "acme-account"
      (WorkspaceType.process memory (at "orgs") (account acme) acme_processed).1.world
    ≡ memory.workspace_types.get "root:orgs" "acme-account" acme_processed.world
process_again_example =
    process_again memory memory-WorkspaceTypeLaws memory-ClusterLaws acme refl (at "orgs")
      (at "orgs") (state empty_world) acme_processed "root:orgs" refl orgs_found acme_typed
      (λ _. refl) acme_typed_again "acme-account"
