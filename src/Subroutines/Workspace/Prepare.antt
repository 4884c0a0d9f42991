-- ===== src/Subroutines/Workspace/Prepare.antt =====
-- What a run of the Workspace subroutine has found before it writes.
use account_operator.Base.{
  String, ◌≡◌, refl, ◌≢◌, ◌⊎◌, inl, inr, ◌==◌, true, some, arith, eq_iff, Bool-cases, Option-cases,
}
use account_operator.Meta.{Ref}
use account_operator.Api.Account.{Account, account_type_org}
use account_operator.Api.AccountInfo.{AccountInfo}
use account_operator.Kcp.{WorkspaceType, new_workspace}
use account_operator.Platform.{Platform, Context, OperationResult, Result, ok, Result-cases}
use account_operator.ClusteredName.{account}
use account_operator.Exec.{State, returns, done}
use account_operator.Subroutines.Util.{get_workspace_type_name}
use account_operator.Subroutines.ManageAccountInfo.{default_account_info_name}
use account_operator.Subroutines.Workspace.{
  orgs_workspace_path, mutate_workspace, ensure_workspace, process,
}

module _ (P : Platform) where
  -- The workspace type that an account's workspace gets: its own for an organization, and for any
  -- other account the one that the AccountInfo beside it names by its organization.
  pub record Chosen (inst : Account) (c : P.Cluster) (w : P.World) : Type 0 where
    pub type_name : String
    pub org_name : String
    pub named : type_name ≡ get_workspace_type_name org_name inst.spec.type
    pub choice :
        ((inst.spec.type ≡ account_type_org) × (org_name ≡ inst.meta.name))
        ⊎ ((info : AccountInfo) × (inst.spec.type ≢ account_type_org)
            × (P.account_infos.get c default_account_info_name w ≡ ok info)
            × (info.spec.organization.name ≢ "")
            × (org_name ≡ info.spec.organization.name))

  -- The workspace type of this name can be read in the cluster "root:orgs" and is ready.
  pub record TypeReady (type_name : String) (w : P.World) : Type 0 where
    pub cluster : P.Cluster
    pub found : P.get_cluster orgs_workspace_path w ≡ ok cluster
    pub wst : WorkspaceType
    pub read : P.workspace_types.get cluster type_name w ≡ ok wst
    pub ready : P.is_ready wst ≡ true

  module _ (ctx : Context) (inst : Ref Account) (s : State P) where
    -- What the run has found before it writes.
    pub record Prepared : Type 0 where
      pub cluster_id : String
      pub in_context : ctx.cluster ≡ some cluster_id
      pub cluster : P.Cluster
      pub found : P.get_cluster cluster_id s.world ≡ ok cluster
      pub chosen : Chosen inst.val cluster s.world
      pub type_ready : TypeReady chosen.type_name s.world

  abbrev pub update :
      Account → String → P.Cluster → P.World → Result P.ApiError OperationResult × P.World
  update owner type_name c w =
      P.workspaces.create_or_update c (new_workspace owner.meta.name)
        (mutate_workspace P owner type_name) w

  -- `ensure_workspace` leaves the world alone, or the type was ready and it has made its write.
  pub ensure-guarded :
      (inst : Ref Account) (c : P.Cluster) (n : String) (s : State P)
      → (((ensure_workspace P inst c n s).1.world ≡ s.world)
          × ((ensure_workspace P inst c n s).0 ≢ returns done))
        ⊎ (TypeReady n s.world
            × ((ensure_workspace P inst c n s).1.world ≡ (update inst.val n c s.world).1)
            × ((ensure_workspace P inst c n s).0 ≡ returns done
                → (r : OperationResult) × ((update inst.val n c s.world).0 ≡ ok r)))
  unfolding ensure_workspace
  ensure-guarded inst c n s = elim (Result-cases (P.get_cluster orgs_workspace_path s.world)) [
    | inr (x, e) ↦ inl (ground arith, λ h. ground arith)
    | inl (oc, e) ↦ elim (Result-cases (P.workspace_types.get oc n s.world)) [
      | inr (x, e2) ↦ inl (ground arith, λ h. ground arith)
      | inl (wst, e2) ↦ elim (Bool-cases (P.is_ready wst)) [
        | inr e3 ↦ inl (ground arith, λ h. ground arith)
        | inl e3 ↦ elim (Result-cases (update inst.val n c s.world).0) [
          | inr (x, e4) ↦ inr (
            record { cluster = oc; found = e; wst = wst; read = e2; ready = e3 },
            ground arith,
            λ h. absurd (ground arith),
          )
          | inl (r, e4) ↦ inr (
            record { cluster = oc; found = e; wst = wst; read = e2; ready = e3 },
            ground arith,
            λ h. (r, e4),
          )
        ]
      ]
    ]
  ]

  module _ (ctx : Context) (inst : Ref Account) (s : State P) where
    -- The run that goes on to `ensure_workspace` does so at these values.
    pub record Prefix : Type 0 where
      pub cluster_id : String
      pub in_context : ctx.cluster ≡ some cluster_id
      pub cluster : P.Cluster
      pub found : P.get_cluster cluster_id s.world ≡ ok cluster
      pub chosen : Chosen inst.val cluster s.world
      pub rest : process P ctx (account inst) s ≡ ensure_workspace P inst cluster chosen.type_name s

    abbrev pub Stops : Type 0
    Stops =
        ((process P ctx (account inst) s).1.world ≡ s.world)
        × ((process P ctx (account inst) s).0 ≢ returns done)

    pub process-Prefix : Stops ⊎ Prefix
    unfolding process
    process-Prefix = elim (Option-cases ctx.cluster) [
      | inl e ↦ inl (ground arith, λ h. ground arith)
      | inr (id, e) ↦ elim (Result-cases (P.get_cluster id s.world)) [
        | inr (x, e2) ↦ inl (ground arith, λ h. ground arith)
        | inl (c, e2) ↦ elim (Bool-cases (inst.val.spec.type == account_type_org)) [
          | inl t ↦ inr (record {
            cluster_id = id;
            in_context = e;
            cluster = c;
            found = e2;
            chosen = record {
              type_name = get_workspace_type_name inst.val.meta.name inst.val.spec.type;
              org_name = inst.val.meta.name;
              named = refl;
              choice = inl ((eq_iff _ _).0 t, refl);
            };
            rest = ground arith;
          })
          | inr t ↦ elim (Result-cases (P.account_infos.get c default_account_info_name s.world)) [
            | inr (x, e3) ↦ inl (ground arith, λ h. ground arith)
            | inl (info, e3) ↦ elim (Bool-cases (info.spec.organization.name == "")) [
              | inl n ↦ inl (ground arith, λ h. ground arith)
              | inr n ↦ inr (record {
                cluster_id = id;
                in_context = e;
                cluster = c;
                found = e2;
                chosen = record {
                  type_name =
                      get_workspace_type_name info.spec.organization.name inst.val.spec.type;
                  org_name = info.spec.organization.name;
                  named = refl;
                  choice = inr (
                    info,
                    λ p. cc (t, (eq_iff _ _).1 p),
                    e3,
                    λ p. cc (n, (eq_iff _ _).1 p),
                    refl,
                  );
                };
                rest = ground arith;
              })
            ]
          ]
        ]
      ]
    ]
