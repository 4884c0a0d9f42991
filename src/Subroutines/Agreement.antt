-- ===== src/Subroutines/Agreement.antt =====
-- The Workspace subroutine looks for the workspace types that the WorkspaceType subroutine stores.
use account_operator.Base.{String, ◌≡◌, inl, inr}
use account_operator.Meta.{Ref}
use account_operator.Api.Account.{Account, account_type_org}
use account_operator.Kcp.{WorkspaceType}
use account_operator.Platform.{Platform, Context, ok}
use account_operator.Platform.Laws.{WorkspaceTypeLaws, ClusterLaws}
use account_operator.ClusteredName.{account}
use account_operator.Exec.{State, returns, done}
use account_operator.Subroutines.Util.{get_workspace_type_name}
use account_operator.Subroutines.Util.Names.{IsKnown}
use account_operator.Subroutines.Workspace.{orgs_workspace_path}
use account_operator.Subroutines.Workspace.Prepare.{Chosen}
use account_operator.Subroutines.WorkspaceType.{
  process, generate_org_workspace_type, generate_account_workspace_type,
}
use account_operator.Subroutines.WorkspaceType.Provision.{OrgTypes, process-OrgTypes}

module _ (P : Platform) where
  -- The workspace type of this name is read in the cluster "root:orgs".
  pub record TypeFound (name : String) (w w' : P.World) : Type 0 where
    pub cluster : P.Cluster
    pub found : P.get_cluster orgs_workspace_path w ≡ ok cluster
    pub wst : WorkspaceType
    pub read : P.workspace_types.get cluster name w' ≡ ok wst

  known-TypeFound :
      (name : String) (w w' : P.World) {t : String}
      → OrgTypes P name w w'
      → IsKnown t
      → TypeFound (get_workspace_type_name name t) w w'
  unfolding generate_org_workspace_type generate_account_workspace_type
  known-TypeFound name w w' o (inl e) = record {
    cluster = o.cluster;
    found = o.found;
    wst = o.org_type.wst;
    read = rw e o.org_type.read;
  }
  known-TypeFound name w w' o (inr e) = record {
    cluster = o.cluster;
    found = o.found;
    wst = o.account_type.wst;
    read = rw e o.account_type.read;
  }

  -- When the WorkspaceType subroutine has succeeded for an organization, then for that organization
  -- and for every account of type "org" or "account" that it is the organization of, the workspace
  -- type of the name that the Workspace subroutine has to choose (`Chosen`) can be read in the
  -- cluster "root:orgs".
  pub process-TypeFound :
      WorkspaceTypeLaws P
      → ClusterLaws P
      → (ctx : Context) (org : Ref Account) (s : State P) → org.val.spec.type ≡ account_type_org
      → (process P ctx (account org) s).0 ≡ returns done
      → {inst : Account} {c : P.Cluster} {w : P.World} (ch : Chosen P inst c w)
      → ch.org_name ≡ org.val.meta.name
      → IsKnown inst.spec.type
      → TypeFound ch.type_name s.world (process P ctx (account org) s).1.world
  process-TypeFound L C ctx org s is_org h ch same known =
      rw (ch.named, same)
        (known-TypeFound org.val.meta.name s.world (process P ctx (account org) s).1.world
          (process-OrgTypes P L C ctx org s is_org h) known)
