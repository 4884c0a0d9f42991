-- ===== src/Subroutines/WorkspaceType/Provision.antt =====
-- What WorkspaceType has written when its `Process` has succeeded for an organization.
use account_operator.Base.{String, ◌≡◌, refl, sym, ◌∙◌, ◌≢◌, inl, inr, some, List, [], ◌∷◌, arith}
use account_operator.Base.Dict.{copy}
use account_operator.Meta.{Ref, named}
use account_operator.Api.Account.{Account, AccountType, account_type_org, account_type_account}
use account_operator.Kcp.{
  WorkspaceType, WorkspaceTypeSpec, WorkspaceTypeReference, new_workspace_type,
}
use account_operator.Platform.{Platform, Context, OperationResult, Result, ok, Result-cases}
use account_operator.Platform.Laws.{kept_elsewhere, WorkspaceTypeLaws, ClusterLaws, StartsFrom}
use account_operator.ClusteredName.{account}
use account_operator.Exec.{State, Outcome, SubroutineResult, returns, done, ◌>>=◌, pure}
use account_operator.Exec.Bind.{bind-returns}
use account_operator.Subroutines.Util.{get_workspace_type_name}
use account_operator.Subroutines.Util.Names.{org-ne-account}
use account_operator.Subroutines.WorkspaceType.{
  orgs_workspace_path, entries, mutate_workspace_type, generate_org_workspace_type,
  generate_account_workspace_type, create_or_patch_workspace_type, process,
}
use account_operator.Subroutines.WorkspaceType.Isolation.{org, account as account_kind, generated}

module _ (P : Platform) where
  abbrev pub Reads : P.Cluster → String → P.World → WorkspaceType → Type 0
  Reads c n w wst = P.workspace_types.get c n w ≡ ok wst

  abbrev pub Starts : P.Cluster → String → P.World → WorkspaceType → Type 0
  Starts c n w wst =
      StartsFrom (λ (a : WorkspaceType). a.meta) P.is_not_found P.workspace_types c
        (new_workspace_type n) w wst

  -- The four fields that the operator sets are the desired ones, and the others those of the spec
  -- before.
  pub record SpecOver (before desired spec : WorkspaceTypeSpec) : Type 0 where
    pub extend_with : spec.extend_with ≡ desired.extend_with
    pub default_child : spec.default_child_workspace_type ≡ desired.default_child_workspace_type
    pub parents : spec.limit_allowed_parents ≡ desired.limit_allowed_parents
    pub children : spec.limit_allowed_children ≡ desired.limit_allowed_children
    pub authentication : spec.authentication_configurations ≡ before.authentication_configurations
    pub others : spec.other_fields ≡ before.other_fields

  -- The desired type is stored over what was there before: four fields of its spec, and its labels
  -- among the others.
  pub record TypeStored (c : P.Cluster) (desired : WorkspaceType) (w w' : P.World) : Type 0 where
    pub before : WorkspaceType
    pub starts : Starts c desired.meta.name w before
    pub wst : WorkspaceType
    pub read : Reads c desired.meta.name w' wst
    pub spec : SpecOver before.spec desired.spec wst.spec
    pub labels :
        wst.meta.labels ≡ some (copy (entries before.meta.labels) (entries desired.meta.labels))
    pub conditions : wst.conditions ≡ before.conditions
    pub whole : wst ≡ mutate_workspace_type desired before

  abbrev pub patch :
      WorkspaceType → P.Cluster → P.World → Result P.ApiError OperationResult × P.World
  patch desired c w =
      P.workspace_types.create_or_patch c (new_workspace_type desired.meta.name)
        (λ wst. ok (mutate_workspace_type desired wst)) w

  patch-TypeStored :
      WorkspaceTypeLaws P
      → (desired : WorkspaceType) (c : P.Cluster) (w : P.World) {r : OperationResult}
      → (patch desired c w).0 ≡ ok r
      → TypeStored c desired w (patch desired c w).1
  patch-TypeStored L desired c w e =
      let st = L.get-patch c _ _ w e in
      record {
        before = st.start;
        starts = st.starts;
        wst = st.stored;
        read = st.read;
        spec = record {
          extend_with = ground (arith, st.mutated);
          default_child = ground (arith, st.mutated);
          parents = ground (arith, st.mutated);
          children = ground (arith, st.mutated);
          authentication = ground (arith, st.mutated);
          others = ground (arith, st.mutated);
        };
        labels = ground (arith, st.mutated);
        conditions = ground (arith, st.mutated);
        whole = ground (arith, st.mutated);
      }

  -- One step of `Process`: the orgs cluster was found, and the type is written there.
  record Patched (desired : WorkspaceType) (s s' : State P) : Type 0 where
    cluster : P.Cluster
    found : P.get_cluster orgs_workspace_path s.world ≡ ok cluster
    result : OperationResult
    success : (patch desired cluster s.world).0 ≡ ok result
    world : s'.world ≡ (patch desired cluster s.world).1

  create_or_patch-Patched :
      (desired : WorkspaceType) (kind : String) (s : State P)
      → (create_or_patch_workspace_type P desired kind s).0 ≡ returns tt
      → Patched desired s (create_or_patch_workspace_type P desired kind s).1
  unfolding create_or_patch_workspace_type
  create_or_patch-Patched desired kind s h =
      elim (Result-cases (P.get_cluster orgs_workspace_path s.world)) [
        | inr (x, e) ↦ absurd (ground arith)
        | inl (c, e) ↦ elim (Result-cases (patch desired c s.world).0) [
          | inr (x, e2) ↦ absurd (ground arith)
          | inl (r, e2) ↦ record {
            cluster = c;
            found = e;
            result = r;
            success = e2;
            world = ground arith;
          }
        ]
      ]

  abbrev pub steps : String → State P → Outcome P.ApiError SubroutineResult × State P
  steps name = create_or_patch_workspace_type P (generated org name) "org" >>= λ _.
      create_or_patch_workspace_type P (generated account_kind name) "account" >>= λ _. pure done

  pub process-eq-steps :
      (ctx : Context) (inst : Ref Account) (s : State P)
      → inst.val.spec.type ≡ account_type_org
      → process P ctx (account inst) s ≡ steps inst.val.meta.name s
  unfolding process
  process-eq-steps ctx inst s is_org = rw is_org refl

  -- The two workspace types of an organization, written out.
  abbrev in_orgs : String → AccountType → WorkspaceTypeReference
  in_orgs name t = record { name = get_workspace_type_name name t; path = "root:orgs" }

  abbrev in_root : String → WorkspaceTypeReference
  in_root name = record { name = name; path = "root" }

  abbrev typed :
      String
      → AccountType
      → List WorkspaceTypeReference
      → List WorkspaceTypeReference
      → WorkspaceType
  typed name t extension parents = record {
    meta = record (named (get_workspace_type_name name t)) {
      labels = some (("core.platform-mesh.io/org", name) ∷ []);
    };
    spec = record {
      extend_with = extension;
      default_child_workspace_type = some (in_orgs name "account");
      limit_allowed_parents = some parents;
      limit_allowed_children = some (in_orgs name "account" ∷ []);
      authentication_configurations = [];
      other_fields = [];
    };
    conditions = [];
  }

  pub record OrgTypes (name : String) (w w' : P.World) : Type 0 where
    pub cluster : P.Cluster
    pub found : P.get_cluster orgs_workspace_path w ≡ ok cluster
    pub org_desired :
        generated org name ≡ typed name "org" (in_root "org" ∷ []) (in_root "orgs" ∷ [])
    pub account_desired :
        generated account_kind name
        ≡ typed name "account"
            (in_root "account" ∷ [])
            (in_orgs name "org" ∷ in_orgs name "account" ∷ [])
    pub org_type : TypeStored cluster (generated org name) w w'
    pub account_type : TypeStored cluster (generated account_kind name) w w'
    pub elsewhere :
        (c : P.Cluster) (n : String)
        → n ≢ get_workspace_type_name name account_type_org
        → n ≢ get_workspace_type_name name account_type_account
        → P.workspace_types.get c n w' ≡ P.workspace_types.get c n w

  module _ (L : WorkspaceTypeLaws P) where
    -- a write under another name
    pub patch-ne :
        (desired : WorkspaceType) (c c' : P.Cluster) (w : P.World) (n : String)
        → desired.meta.name ≢ n
        → P.workspace_types.get c' n (patch desired c w).1 ≡ P.workspace_types.get c' n w
    patch-ne desired c c' w n h = kept_elsewhere h (
        L.get-patch_elsewhere c (new_workspace_type desired.meta.name)
          (λ wst. ok (mutate_workspace_type desired wst)) w c' n)

  module _ (L : WorkspaceTypeLaws P) (C : ClusterLaws P) where
    two_patches :
        (name : String) (c : P.Cluster) (w : P.World) {r r' : OperationResult}
        → let w1 = (patch (generated org name) c w).1 in
          P.get_cluster orgs_workspace_path w ≡ ok c
          → (patch (generated org name) c w).0 ≡ ok r
          → (patch (generated account_kind name) c w1).0 ≡ ok r'
          → OrgTypes name w (patch (generated account_kind name) c w1).1
    unfolding generate_org_workspace_type generate_account_workspace_type
    two_patches name c w found e e' =
        let A = generated org name in
        let B = generated account_kind name in
        let w1 = (patch A c w).1 in
        let t1 = patch-TypeStored L A c w e in
        let t2 = patch-TypeStored L B c w1 e' in
        let apart = org-ne-account name name in
        record {
          cluster = c;
          found = found;
          org_desired = refl;
          account_desired = refl;
          org_type = record {
            before = t1.before;
            starts = t1.starts;
            wst = t1.wst;
            read = patch-ne L B c c w1 _ (λ p. apart (sym p)) ∙ t1.read;
            spec = t1.spec;
            labels = t1.labels;
            conditions = t1.conditions;
            whole = t1.whole;
          };
          account_type = record {
            before = t2.before;
            starts = rw (patch-ne L A c c w B.meta.name apart) at t2.starts;
            wst = t2.wst;
            read = t2.read;
            spec = t2.spec;
            labels = t2.labels;
            conditions = t2.conditions;
            whole = t2.whole;
          };
          elsewhere = λ d n ne_org ne_account.
              patch-ne L B c d w1 n (λ p. ne_account (sym p))
              ∙ patch-ne L A c d w n (λ p. ne_org (sym p));
        }

    two_Patched :
        (name : String) (s s1 s2 : State P)
        → Patched (generated org name) s s1
        → Patched (generated account_kind name) s1 s2
        → OrgTypes name s.world s2.world
    two_Patched name s s1 s2 p1 p2 =
        let w1 = (patch (generated org name) p1.cluster s.world).1 in
        let kept : P.get_cluster orgs_workspace_path w1
            ≡ P.get_cluster orgs_workspace_path s.world =
          C.get_cluster-patch p1.cluster _ _ s.world orgs_workspace_path in
        let found : P.get_cluster orgs_workspace_path w1 ≡ ok p2.cluster =
          rw p1.world at p2.found in
        let same : p2.cluster ≡ p1.cluster = cc (kept, found, p1.found) in
        rw (p2.world, p1.world, same)
          (two_patches name p1.cluster s.world p1.found p1.success
            (rw (p1.world, same) at p2.success))

    steps-OrgTypes :
        (name : String) (s : State P)
        → (steps name s).0 ≡ returns done
        → OrgTypes name s.world (steps name s).1.world
    steps-OrgTypes name s h =
        let A = create_or_patch_workspace_type P (generated org name) "org" in
        let B = create_or_patch_workspace_type P (generated account_kind name) "account" in
        let first = bind-returns A (λ _. B >>= λ _. pure done) s h in
        let second = bind-returns B (λ _. pure done) (A s).1 (rw first.rest at h) in
        let p1 = create_or_patch-Patched (generated org name) "org" s first.first in
        let p2 =
          create_or_patch-Patched (generated account_kind name) "account" (A s).1 second.first in
        rw (first.rest, second.rest) (two_Patched name s (A s).1 (B (A s).1).1 p1 p2)

    -- If the subroutine succeeds for an account of type "org", both of its workspace types can be
    -- read in the cluster "root:orgs". Of their specs, the extension, the default child and the
    -- limits on parents and children are those of a type of this organization, as `typed` writes
    -- them out, and the authentication configurations
    -- and all other fields are those that were there before. Their labels are the former labels
    -- with the generated ones put over them, and their conditions are unchanged. Every other
    -- workspace type of every cluster is what it was.
    pub process-OrgTypes :
        (ctx : Context) (inst : Ref Account) (s : State P)
        → inst.val.spec.type ≡ account_type_org
        → (process P ctx (account inst) s).0 ≡ returns done
        → OrgTypes inst.val.meta.name s.world (process P ctx (account inst) s).1.world
    process-OrgTypes ctx inst s is_org h =
        let e = process-eq-steps ctx inst s is_org in
        rw e (steps-OrgTypes inst.val.meta.name s (rw e at h))
