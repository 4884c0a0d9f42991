-- ===== src/Subroutines/WorkspaceType/Effects.antt =====
-- What a run of the WorkspaceType subroutine can change: the two workspace types of its account.
use account_operator.Base.{String, ◌==◌, ◌≡◌, refl, inl, inr, arith, eq_iff, Bool-cases}
use account_operator.Meta.{Ref}
use account_operator.Api.Account.{Account, account_type_org, account_type_account}
use account_operator.Kcp.{WorkspaceType, new_workspace_type}
use account_operator.Platform.{Platform, Context, Result, Result-cases}
use account_operator.ClusteredName.{account}
use account_operator.Exec.{◌>>=◌, pure, done}
use account_operator.Exec.Preserves.{Preserves, bind-Preserves}
use account_operator.Subroutines.Util.{get_workspace_type_name}
use account_operator.Subroutines.WorkspaceType.{
  orgs_workspace_path, generate_org_workspace_type, generate_account_workspace_type,
  create_or_patch_workspace_type, delete_workspace_type, process, finalize,
}
use account_operator.Subroutines.WorkspaceType.Isolation.{org, account as account_kind, generated}
use account_operator.Subroutines.WorkspaceType.Provision.{
  patch, steps as process_steps, process-eq-steps,
}
use account_operator.Subroutines.WorkspaceType.Remove.{not_org_idle}

module _ (P : Platform) {X : Type 0} (view : P.World → X) where
  -- No write of the workspace type `n`, in any cluster, changes what is seen.
  pub record BlindToType (n : String) : Type 0 where
    pub patched :
        (c : P.Cluster) (f : WorkspaceType → Result P.ApiError WorkspaceType) (w : P.World)
        → view (P.workspace_types.create_or_patch c (new_workspace_type n) f w).1 ≡ view w
    pub deleted : (c : P.Cluster) (w : P.World) → view (P.workspace_types.delete c n w).1 ≡ view w

  -- Both workspace types of the organization.
  abbrev pub BlindToTypes : String → Type 0
  BlindToTypes name =
      BlindToType (get_workspace_type_name name account_type_org)
      × BlindToType (get_workspace_type_name name account_type_account)

  -- The workspace types that are written for the account.
  abbrev pub BlindToTypesOf : Account → Type 0
  BlindToTypesOf inst = inst.spec.type ≡ account_type_org → BlindToTypes inst.meta.name

  create_or_patch-Preserves :
      (desired : WorkspaceType) (kind : String)
      → BlindToType desired.meta.name
      → Preserves P view (create_or_patch_workspace_type P desired kind)
  unfolding create_or_patch_workspace_type
  create_or_patch-Preserves desired kind blind s =
      elim (Result-cases (P.get_cluster orgs_workspace_path s.world)) [
        | inr (x, e) ↦ ground (arith, e)
        | inl (d, e) ↦
            let k : view (patch P desired d s.world).1 ≡ view s.world = blind.patched d _ s.world in
            elim (Result-cases (patch P desired d s.world).0) [
              | inr (x, e2) ↦ ground (arith, e, e2, k)
              | inl (r, e2) ↦ ground (arith, e, e2, k)
            ]
      ]

  delete-Preserves :
      (d : P.Cluster) (m : String) → BlindToType m → Preserves P view (delete_workspace_type P d m)
  unfolding delete_workspace_type
  delete-Preserves d m blind s = ground (arith, blind.deleted d s.world)

  steps-Preserves : (name : String) → BlindToTypes name → Preserves P view (process_steps P name)
  unfolding generate_org_workspace_type generate_account_workspace_type
  steps-Preserves name (h, k) =
      bind-Preserves P view (create_or_patch_workspace_type P (generated org name) "org")
        (λ _. create_or_patch_workspace_type P (generated account_kind name) "account" >>= λ _.
          pure done)
        (create_or_patch-Preserves (generated org name) "org" h)
        (λ _.
          bind-Preserves P view
            (create_or_patch_workspace_type P (generated account_kind name) "account")
            (λ _. pure done) (create_or_patch-Preserves (generated account_kind name) "account" k)
            (λ _ _. refl))

  module _ (ctx : Context) (inst : Ref Account) (blind : BlindToTypesOf inst.val) where
    pub process-Preserves : Preserves P view (process P ctx (account inst))
    process-Preserves s = elim (Bool-cases (inst.val.spec.type == account_type_org)) [
      | inl t ↦
          let is_org = (eq_iff _ _).0 t in
          rw (process-eq-steps P ctx inst s is_org)
            (steps-Preserves inst.val.meta.name (blind is_org) s)
      | inr t ↦ rw (not_org_idle P ctx inst s (λ p. cc (t, (eq_iff _ _).1 p))).1 refl
    ]

    pub finalize-Preserves : Preserves P view (finalize P ctx (account inst))
    unfolding finalize
    finalize-Preserves s = elim (Bool-cases (inst.val.spec.type == account_type_org)) [
      | inl t ↦
          let is_org = (eq_iff _ _).0 t in
          let (h, k) = blind is_org in
          elim (Result-cases (P.get_cluster orgs_workspace_path s.world)) [
            | inr (x, e) ↦ ground (arith, e, t)
            | inl (d, e) ↦
                let A =
                  delete_workspace_type P d
                    (get_workspace_type_name inst.val.meta.name account_type_org) in
                let B =
                  delete_workspace_type P d
                    (get_workspace_type_name inst.val.meta.name account_type_account) in
                let kept =
                  bind-Preserves P view A (λ _. B >>= λ _. pure done) (delete-Preserves d _ h)
                    (λ _.
                      bind-Preserves P view B (λ _. pure done) (delete-Preserves d _ k)
                        (λ _ _. refl))
                    s in
                rw (is_org, e) kept
          ]
      | inr t ↦ rw (not_org_idle P ctx inst s (λ p. cc (t, (eq_iff _ _).1 p))).2 refl
    ]
