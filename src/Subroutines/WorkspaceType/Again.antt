-- ===== src/Subroutines/WorkspaceType/Again.antt =====
-- Processing an organization once more.
use account_operator.Base.{String, ◌==◌, ◌≡◌, sym, ap, ◌∙◌, inl, inr, arith, eq_iff, Bool-cases}
use account_operator.Meta.{Ref}
use account_operator.Api.Account.{Account, account_type_org, account_type_account}
use account_operator.Kcp.{WorkspaceType}
use account_operator.Platform.{Platform, Context, Result, ok}
use account_operator.Platform.Laws.{WorkspaceTypeLaws, ClusterLaws}
use account_operator.ClusteredName.{account}
use account_operator.Exec.{State, returns, done}
use account_operator.Subroutines.Util.{get_workspace_type_name}
use account_operator.Subroutines.WorkspaceType.{
  orgs_workspace_path, generate_org_workspace_type, generate_account_workspace_type, process,
}
use account_operator.Subroutines.WorkspaceType.Isolation.{
  Kind, org, account as account_kind, generated,
}
use account_operator.Subroutines.WorkspaceType.Labels.{mutate_workspace_type_idem}
use account_operator.Subroutines.WorkspaceType.Provision.{TypeStored, process-OrgTypes}

module _ (P : Platform) where
  abbrev get : P.Cluster → String → P.World → Result P.ApiError WorkspaceType
  get c n w = P.workspace_types.get c n w

  -- A type that is stored over what the first run has stored.
  stored_again :
      (k : Kind) (name : String) (c : P.Cluster) (w w1 w' w2 : P.World)
      → TypeStored P c (generated k name) w w1
      → get c (generated k name).meta.name w' ≡ get c (generated k name).meta.name w1
      → TypeStored P c (generated k name) w' w2
      → get c (generated k name).meta.name w2 ≡ get c (generated k name).meta.name w'
  stored_again k name c w w1 w' w2 a same b = elim b.starts [
    | inl e ↦
        let old : b.before ≡ a.wst = ground (arith, e, same, a.read) in
        let new : b.wst ≡ a.wst =
          b.whole ∙ rw (old, a.whole) (mutate_workspace_type_idem k name a.before) in
        b.read ∙ ap ok new ∙ sym (same ∙ a.read)
    | inr (x, e, _, _) ↦ absurd (ground (arith, e, same, a.read))
  ]

  module _ (L : WorkspaceTypeLaws P) (C : ClusterLaws P) (inst : Ref Account)
      (is_org : inst.val.spec.type ≡ account_type_org) where
    -- Where the WorkspaceType subroutine has succeeded for an organization, and nothing has changed
    -- the workspace types of the cluster "root:orgs" since, another run that succeeds leaves every
    -- workspace type of that cluster as it is.
    pub process_again :
        (ctx ctx' : Context) (s s' : State P) (c : P.Cluster)
        → P.get_cluster orgs_workspace_path s.world ≡ ok c
        → P.get_cluster orgs_workspace_path s'.world ≡ ok c
        → (process P ctx (account inst) s).0 ≡ returns done
        → ((n : String) → get c n s'.world ≡ get c n (process P ctx (account inst) s).1.world)
        → (process P ctx' (account inst) s').0 ≡ returns done
        → (n : String) → get c n (process P ctx' (account inst) s').1.world ≡ get c n s'.world
    unfolding generate_org_workspace_type generate_account_workspace_type
    process_again ctx ctx' s s' c found found' h same h' n =
        let name = inst.val.meta.name in
        let n1 = get_workspace_type_name name account_type_org in
        let n2 = get_workspace_type_name name account_type_account in
        let w1 = (process P ctx (account inst) s).1.world in
        let w2 = (process P ctx' (account inst) s').1.world in
        let a = process-OrgTypes P L C ctx inst s is_org h in
        let b = process-OrgTypes P L C ctx' inst s' is_org h' in
        let e : a.cluster ≡ c = ground (arith, a.found, found) in
        let e' : b.cluster ≡ c = ground (arith, b.found, found') in
        elim (Bool-cases (n == n1)) [
          | inl t ↦ rw ((eq_iff n n1).0 t) (
              stored_again org name c s.world w1 s'.world w2 (rw e at a.org_type) (same n1)
                (rw e' at b.org_type))
          | inr t ↦ elim (Bool-cases (n == n2)) [
            | inl t' ↦ rw ((eq_iff n n2).0 t') (
                stored_again account_kind name c s.world w1 s'.world w2 (rw e at a.account_type)
                  (same n2) (rw e' at b.account_type))
            | inr t' ↦
                b.elsewhere c n (λ p. cc (t, (eq_iff n n1).1 p)) (λ p. cc (t', (eq_iff n n2).1 p))
          ]
        ]
