-- ===== src/Controller/Runs/Stays.antt =====
-- What the Workspace and the WorkspaceType subroutines have created, after runs of the other
-- handlers.
use account_operator.Base.{◌≡◌, ◌∙◌}
use account_operator.Meta.{Ref}
use account_operator.Api.Account.{Account}
use account_operator.Platform.{Platform, Context}
use account_operator.Platform.Laws.{
  WorkspaceLaws, WorkspaceTypeLaws, OwnerLaws, ClusterLaws, KindLaws,
}
use account_operator.ClusteredName.{account}
use account_operator.Exec.{State, returns, done}
use account_operator.Controller.Runs.{RunsOn}
use account_operator.Controller.Runs.Others.{
  MissesWorkspace, MissesTypes, workspace_kept, types_kept,
}
use account_operator.Api.Account.{account_type_org}
use account_operator.Subroutines.Agreement.{TypeFound, process-TypeFound}
use account_operator.Subroutines.Util.{get_workspace_type_name}
use account_operator.Subroutines.Util.Names.{IsKnown}
use account_operator.Subroutines.Workspace.Prepare.{Chosen}
use account_operator.Subroutines.WorkspaceType
use account_operator.Subroutines.Workspace.{process}
use account_operator.Subroutines.Workspace.Create.{Created, process-Created}
use account_operator.Subroutines.Workspace.Prepare.{Prepared}

module _ (P : Platform) {M L : Type 0} (W : WorkspaceLaws P) (T : WorkspaceTypeLaws P)
    (O : OwnerLaws P) (K : KindLaws P) (ctx : Context) (inst : Ref Account) (s : State P) where
  -- If the Workspace subroutine has succeeded for an account, then after any runs of handlers, but
  -- for those of this subroutine for accounts of the same name, its workspace can still be read in
  -- the account's cluster as it was created: the type was ready, and the workspace has this type of
  -- "root:orgs", and the cluster and the URL that it had before if it was there.
  pub workspace_stays :
      {s' : State P}
      → (process P ctx (account inst) s).0 ≡ returns done
      → RunsOn P M L (MissesWorkspace P inst.val.meta.name) (process P ctx (account inst) s).1 s'
      → (p : Prepared P ctx inst s) × Created P ctx inst s p s'.world
  workspace_stays h runs =
      let (p, c) = process-Created P ctx inst s W O h in
      let kept = workspace_kept P W T K inst.val.meta.name p.cluster runs in
      (
        p,
        record {
          before = c.before;
          starts = c.starts;
          workspace = c.workspace;
          read = kept ∙ c.read;
          type = c.type;
          cluster = c.cluster;
          url = c.url;
          whole = c.whole;
        },
      )

module _ (P : Platform) {M L : Type 0} (W : WorkspaceLaws P) (T : WorkspaceTypeLaws P)
    (C : ClusterLaws P) (K : KindLaws P) where
  -- When the WorkspaceType subroutine has succeeded for an organization, then after any runs of
  -- handlers, but for those of this subroutine for organizations of the same name, the workspace
  -- type of the name that the Workspace subroutine has to choose (`Chosen`), for that organization
  -- and for every account of type "org" or "account" that it is the organization of, can still be
  -- read in the cluster "root:orgs".
  pub types_stay :
      (ctx : Context) (org : Ref Account) (s : State P) {s' : State P}
      → org.val.spec.type ≡ account_type_org
      → (WorkspaceType.process P ctx (account org) s).0 ≡ returns done
      → RunsOn P M L
          (MissesTypes P org.val.meta.name)
          (WorkspaceType.process P ctx (account org) s).1
          s'
      → {inst : Account} {c : P.Cluster} {w : P.World} (ch : Chosen P inst c w)
      → ch.org_name ≡ org.val.meta.name
      → IsKnown inst.spec.type
      → TypeFound P ch.type_name s.world s'.world
  types_stay ctx org s {s'} is_org h runs {inst} ch same known =
      let t = process-TypeFound P T C ctx org s is_org h ch same known in
      let named : ch.type_name ≡ get_workspace_type_name org.val.meta.name inst.spec.type =
        rw same at ch.named in
      record {
        cluster = t.cluster;
        found = t.found;
        wst = t.wst;
        read =
            rw (named, types_kept P W T K org.val.meta.name t.cluster inst.spec.type known runs)
              (rw named at t.read);
      }
