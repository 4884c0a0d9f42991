-- ===== src/Subroutines/Rollout/Steps.antt =====
-- What each step for an account needs to succeed.
use account_operator.Base.{String, ◌≡◌, ◌≢◌, ◌⊎◌, inl, inr, some, arith, eq_iff}
use account_operator.Meta.{Ref}
use account_operator.Api.Account.{Account, account_type_org}
use account_operator.Api.AccountInfo.{AccountInfo, AccountLocation}
use account_operator.Kcp.{new_workspace_type}
use account_operator.Platform.{Platform, Context, OperationResult, Result, ok}
use account_operator.Platform.Laws.{ClusterLaws}
use account_operator.ClusteredName.{account}
use account_operator.Exec.{State, returns, done}
use account_operator.Subroutines.ManageAccountInfo
use account_operator.Subroutines.ManageAccountInfo.{
  process_org, process_child, default_account_info_name,
}
use account_operator.Subroutines.ManageAccountInfo.Locate.{Located}
use account_operator.Subroutines.ManageAccountInfo.Provision.{
  location, process-eq-process_org, process-eq-process_child,
}
use account_operator.Subroutines.ManageAccountInfo.Write.{write_org, write_child}
use account_operator.Subroutines.Workspace
use account_operator.Subroutines.Workspace.{ensure_workspace, orgs_workspace_path}
use account_operator.Subroutines.Workspace.Prepare.{Chosen, TypeReady, update}
use account_operator.Subroutines.WorkspaceType
use account_operator.Subroutines.WorkspaceType.{
  create_or_patch_workspace_type, mutate_workspace_type,
}
use account_operator.Subroutines.WorkspaceType.Isolation.{org, account as account_kind, generated}
use account_operator.Subroutines.WorkspaceType.Provision.{patch, process-eq-steps}

-- A write that succeeds.
abbrev pub Written : {E W : Type 0} → Result E OperationResult × W → Type 0
Written r = (q : OperationResult) × (r.0 ≡ ok q)

module _ (P : Platform) where
  -- The workspace types of the organization can be written.
  pub record TypesWritten (name : String) (w : P.World) : Type 0 where
    pub cluster : P.Cluster
    pub found : P.get_cluster orgs_workspace_path w ≡ ok cluster
    pub org_written : Written (patch P (generated org name) cluster w)
    pub account_written :
        Written
          (patch P (generated account_kind name) cluster (patch P (generated org name) cluster w).1)

  pub TypesWritten-done :
      ClusterLaws P
      → (ctx : Context) (inst : Ref Account) (s : State P) → inst.val.spec.type ≡ account_type_org
      → TypesWritten inst.val.meta.name s.world
      → (WorkspaceType.process P ctx (account inst) s).0 ≡ returns done
  unfolding create_or_patch_workspace_type
  TypesWritten-done C ctx inst s is_org t =
      let (q1, e1) = t.org_written in
      let (q2, e2) = t.account_written in
      let k =
        C.get_cluster-patch t.cluster
          (new_workspace_type (generated org inst.val.meta.name).meta.name)
          (λ wst. ok (mutate_workspace_type (generated org inst.val.meta.name) wst)) s.world
          orgs_workspace_path in
      rw (process-eq-steps P ctx inst s is_org) (ground (arith, t.found, e1, e2, k))

  pub ensure_done :
      (inst : Ref Account) (c : P.Cluster) (type_name : String) (s : State P)
      → TypeReady P type_name s.world
      → Written (update P inst.val type_name c s.world)
      → (ensure_workspace P inst c type_name s).0 ≡ returns done
  unfolding ensure_workspace
  ensure_done inst c type_name s t (q, e) = ground (arith, t.found, t.read, t.ready, e)

  pub process_chosen :
      (ctx : Context) (id : String) (c : P.Cluster) (inst : Ref Account) (s : State P)
      → ctx.cluster ≡ some id
      → P.get_cluster id s.world ≡ ok c
      → (ch : Chosen P inst.val c s.world)
      → Workspace.process P ctx (account inst) s ≡ ensure_workspace P inst c ch.type_name s
  unfolding Workspace.process
  process_chosen ctx id c inst s in_context found ch = elim ch.choice [
    | inl (t, n) ↦
        ground
          (arith, t, n, in_context, found, ch.named, eq_iff inst.val.spec.type account_type_org)
    | inr (info, t, read, set, n) ↦ ground (
      arith,
      t,
      n,
      in_context,
      found,
      read,
      set,
      ch.named,
      eq_iff inst.val.spec.type account_type_org,
      eq_iff info.spec.organization.name "",
    )
  ]

  module _ (server_ca : String) where
    process_org_done :
        (inst : Ref Account) (self : AccountLocation) (c : P.Cluster) (s : State P)
        → Written (write_org P server_ca self c s.world)
        → (process_org P server_ca inst self c s).0 ≡ returns done
    unfolding process_org
    process_org_done inst self c s (q, e) = ground (arith, e)

    process_child_done :
        (inst : Ref Account) (self : AccountLocation) (cluster c : P.Cluster) (s : State P)
        {parent : AccountInfo}
        → P.account_infos.get cluster default_account_info_name s.world ≡ ok parent
        → Written (write_child P server_ca self parent c s.world)
        → (process_child P server_ca inst self cluster c s).0 ≡ returns done
    unfolding process_child
    process_child_done inst self cluster c s found (q, e) = ground (arith, found, e)

    -- What the write of the AccountInfo needs: for an account below an organization, the parent's.
    abbrev pub InfoWritten :
        (ctx : Context) (inst : Ref Account) (s : State P) → Located P server_ca ctx inst s → Type 0
    InfoWritten ctx inst s l =
        ((inst.val.spec.type ≡ account_type_org)
          × Written
              (write_org P server_ca (location P server_ca ctx inst s l) l.account_cluster s.world))
        ⊎ ((parent : AccountInfo) × (inst.val.spec.type ≢ account_type_org)
            × (P.account_infos.get l.cluster default_account_info_name s.world ≡ ok parent)
            × Written (
                write_child P server_ca (location P server_ca ctx inst s l) parent l.account_cluster
                  s.world))

    pub InfoWritten-done :
        (ctx : Context) (inst : Ref Account) (s : State P) (l : Located P server_ca ctx inst s)
        → InfoWritten ctx inst s l
        → (ManageAccountInfo.process P server_ca ctx (account inst) s).0 ≡ returns done
    InfoWritten-done ctx inst s l (inl (is_org, e)) =
        rw (process-eq-process_org P server_ca ctx inst s l is_org)
          (process_org_done inst _ l.account_cluster s e)
    InfoWritten-done ctx inst s l (inr (parent, child, read, e)) =
        rw (process-eq-process_child P server_ca ctx inst s l child)
          (process_child_done inst _ l.cluster l.account_cluster s read e)
