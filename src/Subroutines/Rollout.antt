-- ===== src/Subroutines/Rollout.antt =====
-- The subroutines of an account together, in the order of the controller, up to a ready workspace:
-- between their runs the API servers of kcp do their part.
pub mod Steps
use Steps.{
  TypesWritten, TypesWritten-done, Written, ensure_done, process_chosen, InfoWritten,
  InfoWritten-done,
}
use account_operator.Base.{String, ◌≡◌, inl, inr, some, arith}
use account_operator.Meta.{Ref}
use account_operator.Api.Account.{Account, account_type_org}
use account_operator.Api.AccountInfo.{AccountInfo}
use account_operator.Kcp.{Workspace}
use account_operator.Platform.{Platform, Context, ok}
use account_operator.Platform.Laws.{
  AccountInfoLaws, WorkspaceTypeLaws, WorkspaceLaws, OwnerLaws, ClusterLaws,
}
use account_operator.ClusteredName.{account}
use account_operator.Exec.{State, returns, done}
use account_operator.Subroutines.Agreement.{TypeFound, process-TypeFound}
use account_operator.Subroutines.ManageAccountInfo
use account_operator.Subroutines.ManageAccountInfo.{default_account_info_name}
use account_operator.Subroutines.ManageAccountInfo.Locate.{Located}
use account_operator.Subroutines.ManageAccountInfo.Provision.{Located-OrgInfo, Located-ChildInfo}
use account_operator.Subroutines.Util.Names.{IsKnown}
use account_operator.Subroutines.Workspace
use account_operator.Subroutines.Workspace.Create.{process-Created}
use account_operator.Subroutines.Workspace.Prepare.{Chosen, TypeReady, update}
use account_operator.Subroutines.WorkspaceReady
use account_operator.Subroutines.WorkspaceReady.Ready.{ReadyWorkspace, process-ReadyWorkspace}
use account_operator.Subroutines.WorkspaceType

-- An organization, and an account of it, or once more the organization itself.
module _ (P : Platform) (server_ca : String) (org_ctx : Context) (org : Ref Account) (ctx : Context)
    (id : String) (c : P.Cluster) (inst : Ref Account) where
  -- The four runs, each from a state of its own.
  module _ (s1 s2 s3 s4 : State P) where
    abbrev stored_types : P.World
    stored_types = (WorkspaceType.process P org_ctx (account org) s1).1.world

    abbrev created : P.World
    created = (Workspace.process P ctx (account inst) s2).1.world

    abbrev informed : P.World
    informed = (ManageAccountInfo.process P server_ca ctx (account inst) s3).1.world

    -- The account's workspace gets a type of the organization, and no call of a run fails.
    pub record Available : Type 0 where
      pub types : TypesWritten P org.val.meta.name s1.world
      pub found : P.get_cluster id s2.world ≡ ok c
      pub chosen : Chosen P inst.val c s2.world
      pub same_org : chosen.org_name ≡ org.val.meta.name
      pub known : IsKnown inst.val.spec.type
      pub workspace : Written (update P inst.val chosen.type_name c s2.world)
      pub info : (l : Located P server_ca ctx inst s3) → InfoWritten P server_ca ctx inst s3 l

    -- What kcp does between the runs: a stored workspace type becomes ready; a workspace that is
    -- there gets a cluster that can be reached and an address; and a workspace in whose cluster an
    -- AccountInfo is there becomes ready.
    pub record Settled (a : Available) : Type 0 where
      pub type_ready :
          TypeFound P a.chosen.type_name s1.world stored_types
          → TypeReady P a.chosen.type_name s2.world
      pub scheduled :
          (ws : Workspace)
          → P.workspaces.get c inst.val.meta.name created ≡ ok ws
          → Located P server_ca ctx inst s3
      pub initialized :
          (l : Located P server_ca ctx inst s3) (info : AccountInfo)
          → P.account_infos.get l.account_cluster default_account_info_name informed ≡ ok info
          → ReadyWorkspace P ctx inst s4

    pub record Done : Type 0 where
      pub types : (WorkspaceType.process P org_ctx (account org) s1).0 ≡ returns done
      pub workspace : (Workspace.process P ctx (account inst) s2).0 ≡ returns done
      pub info : (ManageAccountInfo.process P server_ca ctx (account inst) s3).0 ≡ returns done
      pub ready : (WorkspaceReady.process P ctx (account inst) s4).0 ≡ returns done

    informed_of_done :
        AccountInfoLaws P
        → (l : Located P server_ca ctx inst s3) → InfoWritten P server_ca ctx inst s3 l
        → (ManageAccountInfo.process P server_ca ctx (account inst) s3).0 ≡ returns done
        → (info : AccountInfo) × (P.account_infos.get l.account_cluster default_account_info_name
              informed
            ≡ ok info)
    informed_of_done L l (inl (is_org, _)) h =
        let i = Located-OrgInfo P server_ca L ctx inst s3 l is_org h in (i.info, i.read)
    informed_of_done L l (inr (parent, child, _, _)) h =
        let i = Located-ChildInfo P server_ca L ctx inst s3 l child h in (i.info, i.read)

    module _ (T : WorkspaceTypeLaws P) (C : ClusterLaws P) (W : WorkspaceLaws P) (O : OwnerLaws P)
        (L : AccountInfoLaws P) where
      -- If no call fails and kcp does its part between the runs, one run of each subroutine brings
      -- an account of type "org" or "account" to a ready workspace: WorkspaceType for its
      -- organization, then Workspace, ManageAccountInfo and WorkspaceReady for the account all
      -- succeed.
      pub rollout_ends :
          org.val.spec.type ≡ account_type_org
          → ctx.cluster ≡ some id
          → (a : Available) → Settled a
          → Done
      rollout_ends is_org in_context a k =
          let h1 = TypesWritten-done P C org_ctx org s1 is_org a.types in
          let t = process-TypeFound P T C org_ctx org s1 is_org h1 a.chosen a.same_org a.known in
          let e = process_chosen P ctx id c inst s2 in_context a.found a.chosen in
          let h2 : (Workspace.process P ctx (account inst) s2).0 ≡ returns done =
            rw e (ensure_done P inst c a.chosen.type_name s2 (k.type_ready t) a.workspace) in
          let (p, w) = process-Created P ctx inst s2 W O h2 in
          let same : p.cluster ≡ c = ground (arith, p.in_context, in_context, p.found, a.found) in
          let l = k.scheduled w.workspace (rw same at w.read) in
          let h3 = InfoWritten-done P server_ca ctx inst s3 l (a.info l) in
          let (i, read) = informed_of_done L l (a.info l) h3 in
          record {
            types = h1;
            workspace = h2;
            info = h3;
            ready = (process-ReadyWorkspace P ctx inst s4).1 (k.initialized l i read);
          }
