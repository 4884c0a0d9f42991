-- ===== src/Subroutines/WorkspaceType/Remove.antt =====
-- What is left when WorkspaceType has finalized an organization.
use account_operator.Base.{
  String, ◌≡◌, refl, sym, ◌∙◌, ◌≢◌, inl, inr, [], arith, eq-false_of_ne, eq_iff,
}
use account_operator.Meta.{Ref}
use account_operator.Api.Account.{Account, account_type_org, account_type_account}
use account_operator.Kcp.{WorkspaceType}
use account_operator.Platform.{Platform, Context, Result, ok, Result-cases}
use account_operator.Platform.Laws.{kept_elsewhere, WorkspaceTypeLaws, IsGoing}
use account_operator.ClusteredName.{account}
use account_operator.Exec.{State, Outcome, SubroutineResult, returns, done, ◌>>=◌, pure}
use account_operator.Exec.Bind.{bind-returns}
use account_operator.Subroutines.Util.{get_workspace_type_name}
use account_operator.Subroutines.Util.Names.{org-ne-account}
use account_operator.Subroutines.WorkspaceType.{
  orgs_workspace_path, finalizers, process, finalize, delete_workspace_type,
}

module _ (P : Platform) where
  -- No workspace type of this name can be read, or it is being deleted.
  abbrev pub TypeGoing : P.Cluster → String → P.World → Type 0
  TypeGoing c n w =
      IsGoing (λ (a : WorkspaceType). a.meta) P.is_not_found P.workspace_types
        (P.workspace_types.get c n w)

  pub record OrgTypesGone (name : String) (w w' : P.World) : Type 0 where
    pub cluster : P.Cluster
    pub found : P.get_cluster orgs_workspace_path w ≡ ok cluster
    pub org_type : TypeGoing cluster (get_workspace_type_name name account_type_org) w'
    pub account_type : TypeGoing cluster (get_workspace_type_name name account_type_account) w'
    pub elsewhere :
        (c : P.Cluster) (n : String)
        → n ≢ get_workspace_type_name name account_type_org
        → n ≢ get_workspace_type_name name account_type_account
        → P.workspace_types.get c n w' ≡ P.workspace_types.get c n w

  -- An account that is no organization gets no finalizer, and for it both processing and finalizing
  -- succeed and change nothing.
  pub not_org_idle :
      (ctx : Context) (inst : Ref Account) (s : State P)
      → inst.val.spec.type ≢ account_type_org
      → (finalizers inst.val ≡ [])
        × (process P ctx (account inst) s ≡ (returns done, s))
        × (finalize P ctx (account inst) s ≡ (returns done, s))
  unfolding process finalize
  not_org_idle ctx inst s h = let e = eq-false_of_ne h in (rw e, rw e, rw e)

  module _ (L : WorkspaceTypeLaws P) where
    abbrev delete : P.Cluster → String → P.World → Result P.ApiError (Unit {0}) × P.World
    delete c n w = P.workspace_types.delete c n w

    world-delete :
        (c : P.Cluster) (n : String) (s : State P)
        → (delete_workspace_type P c n s).1.world ≡ (delete c n s.world).1
    unfolding delete_workspace_type
    world-delete c n s = ground arith

    delete-TypeGoing :
        (c : P.Cluster) (n : String) (s : State P)
        → (delete_workspace_type P c n s).0 ≡ returns tt
        → TypeGoing c n (delete c n s.world).1
    unfolding delete_workspace_type
    delete-TypeGoing c n s h = elim (Result-cases (delete c n s.world).0) [
      | inl (x, e) ↦ L.get-delete c n s.world e
      | inr (x, e) ↦ L.get-delete_absent c n s.world e (ground arith)
    ]

    pub delete-ne :
        (c c' : P.Cluster) (n n' : String) (w : P.World)
        → n ≢ n'
        → P.workspace_types.get c' n' (delete c n w).1 ≡ P.workspace_types.get c' n' w
    delete-ne c c' n n' w h = kept_elsewhere h (L.get-delete_elsewhere c n w c' n')

    abbrev steps : P.Cluster → String → State P → Outcome P.ApiError SubroutineResult × State P
    steps c name =
        delete_workspace_type P c (get_workspace_type_name name account_type_org) >>= λ _.
        delete_workspace_type P c (get_workspace_type_name name account_type_account) >>= λ _.
        pure done

    steps-OrgTypesGone :
        (name : String) (c : P.Cluster) (s : State P)
        → P.get_cluster orgs_workspace_path s.world ≡ ok c
        → (steps c name s).0 ≡ returns done
        → OrgTypesGone name s.world (steps c name s).1.world
    steps-OrgTypesGone name c s found h =
        let n = get_workspace_type_name name account_type_org in
        let m = get_workspace_type_name name account_type_account in
        let A = delete_workspace_type P c n in
        let B = delete_workspace_type P c m in
        let first = bind-returns A (λ _. B >>= λ _. pure done) s h in
        let second = bind-returns B (λ _. pure done) (A s).1 (rw first.rest at h) in
        let apart = org-ne-account name name in
        rw (first.rest, second.rest, world-delete c m (A s).1)
          (record {
            cluster = c;
            found = found;
            org_type =
                rw (delete-ne c c m n (A s).1.world (λ p. apart (sym p)), world-delete c n s)
                  (delete-TypeGoing c n s first.first);
            account_type = delete-TypeGoing c m (A s).1 second.first;
            elsewhere = λ d k ne_org ne_account.
                delete-ne c d m k (A s).1.world (λ p. ne_account (sym p))
                ∙ rw (world-delete c n s) (delete-ne c d n k s.world (λ p. ne_org (sym p)));
          })

    -- If finalizing an account of type "org" succeeds, neither of its two workspace types can be
    -- read in the cluster "root:orgs" but as one that is being deleted, and every other workspace
    -- type of every cluster is what it was.
    pub finalize-OrgTypesGone :
        (ctx : Context) (inst : Ref Account) (s : State P)
        → inst.val.spec.type ≡ account_type_org
        → (finalize P ctx (account inst) s).0 ≡ returns done
        → OrgTypesGone inst.val.meta.name s.world (finalize P ctx (account inst) s).1.world
    unfolding finalize
    finalize-OrgTypesGone ctx inst s is_org h =
        elim (Result-cases (P.get_cluster orgs_workspace_path s.world)) [
          | inr (x, e) ↦ absurd (ground (arith, eq_iff inst.val.spec.type account_type_org))
          | inl (c, e) ↦
              let k : finalize P ctx (account inst) s ≡ steps c inst.val.meta.name s =
                rw (is_org, e) refl in
              rw k (steps-OrgTypesGone inst.val.meta.name c s e (rw k at h))
        ]
