-- ===== src/Subroutines/ManageAccountInfo/Rooted.antt =====
-- The organization that the AccountInfo of a cluster names, whatever the outcome of a run.
use account_operator.Base.{
  String, ◌==◌, Bool-cases, sym, ◌∙◌, ◌≡◌, ◌≢◌, ◌⊎◌, inl, inr, arith, eq_iff,
}
use account_operator.Meta.{Ref}
use account_operator.Api.Account.{account_type_org, Account}
use account_operator.Api.AccountInfo.{AccountInfo, AccountLocation}
use account_operator.Platform.{Platform, Context, Result-cases}
use account_operator.Platform.Laws.{AccountInfoLaws, AtomicInfoLaws, Elsewhere}
use account_operator.ClusteredName.{account}
use account_operator.Exec.{State}
use account_operator.Subroutines.ManageAccountInfo.{
  process, process_child, default_account_info_name,
}
use account_operator.Subroutines.ManageAccountInfo.Locate.{Located, process-cases}
use account_operator.Subroutines.ManageAccountInfo.Provision.{
  location, process-eq-process_org, process-eq-process_child,
}
use account_operator.Subroutines.ManageAccountInfo.Write.{
  Reads, write_org, write_child, world-process_org, world-process_child,
}

module _ (P : Platform) (root_of : P.Cluster → AccountLocation) where
  -- Every AccountInfo "account" that can be read names the organization that its cluster is given.
  abbrev pub Rooted : P.World → Type 0
  Rooted w =
      (c : P.Cluster) (info : AccountInfo) → Reads P c w info → info.spec.organization ≡ root_of c

  -- What is read after a write was there before it, or names the organization.
  abbrev Sound : P.Cluster → P.World → P.World → Type 0
  Sound c w w' =
      (info : AccountInfo)
      → Reads P c w' info
      → Reads P c w info ⊎ (info.spec.organization ≡ root_of c)

  Sound-Rooted :
      (c : P.Cluster) (w w' : P.World)
      → Elsewhere
          (λ (a : AccountInfo). a.meta)
          P.is_not_found
          P.account_infos
          c
          default_account_info_name
          w
          w'
      → Sound c w w'
      → Rooted w
      → Rooted w'
  Sound-Rooted c w w' elsewhere sound r d info h = elim (elsewhere d default_account_info_name) [
    | inr kept ↦ r d info (sym kept ∙ h)
    | inl (same, _) ↦ elim (sound info (rw same h)) [
      | inl before ↦ cc (r c info before, same)
      | inr o ↦ cc (o, same)
    ]
  ]

  module _ (server_ca : String) where
    -- An organization's workspace is given the organization itself, and the workspace of any other
    -- account what the account's own cluster is given.
    abbrev pub Placed : Context → Ref Account → State P → Type 0
    Placed ctx inst s =
        (l : Located P server_ca ctx inst s)
        → (inst.val.spec.type ≡ account_type_org
            → root_of l.account_cluster ≡ location P server_ca ctx inst s l)
          × (inst.val.spec.type ≢ account_type_org → root_of l.account_cluster ≡ root_of l.cluster)

    module _ (L : AccountInfoLaws P) (A : AtomicInfoLaws P) (c : P.Cluster) (w : P.World) where
      write_org-Sound :
          (self : AccountLocation) → root_of c ≡ self → Sound c w (write_org P server_ca self c w).1
      write_org-Sound self at info h = elim (Result-cases (write_org P server_ca self c w).0) [
        | inl (r, e) ↦ let st = L.get-patch c _ _ w e in inr (ground (arith, st.read, st.mutated))
        | inr (x, e) ↦ elim (A.get-patch_failed c _ _ w e) [
          | inl st ↦ inr (ground (arith, st.read, st.mutated))
          | inr same ↦ inl (sym same ∙ h)
        ]
      ]

      write_child-Sound :
          (self : AccountLocation) (parent : AccountInfo)
          → parent.spec.organization ≡ root_of c
          → Sound c w (write_child P server_ca self parent c w).1
      write_child-Sound self parent at info h =
          elim (Result-cases (write_child P server_ca self parent c w).0) [
            | inl (r, e) ↦
                let st = L.get-update c _ _ w e in inr (ground (arith, st.read, st.mutated))
            | inr (x, e) ↦ elim (A.get-update_failed c _ _ w e) [
              | inl st ↦ inr (ground (arith, st.read, st.mutated))
              | inr same ↦ inl (sym same ∙ h)
            ]
          ]

    module _ (L : AccountInfoLaws P) (A : AtomicInfoLaws P) (ctx : Context) (inst : Ref Account)
        (s : State P) where
      child-Rooted :
          (self : AccountLocation) (cluster c : P.Cluster)
          → root_of c ≡ root_of cluster
          → Rooted s.world
          → Rooted (process_child P server_ca inst self cluster c s).1.world
      unfolding process_child
      child-Rooted self cluster c at r =
          elim (Result-cases (P.account_infos.get cluster default_account_info_name s.world)) [
            | inr (x, e) ↦
                let same : (process_child P server_ca inst self cluster c s).1.world ≡ s.world =
                  ground arith in
                rw same r
            | inl (parent, e) ↦
                let above : parent.spec.organization ≡ root_of c = r cluster parent e ∙ sym at in
                rw (world-process_child P server_ca inst self cluster c s e) (
                  Sound-Rooted c s.world _ (L.get-update_elsewhere c _ _ s.world)
                    (write_child-Sound L A c s.world self parent above) r)
          ]

      -- A run with any outcome leaves every AccountInfo naming the organization of its cluster.
      pub process-Rooted :
          Placed ctx inst s
          → Rooted s.world
          → Rooted (process P server_ca ctx (account inst) s).1.world
      process-Rooted placed r = elim (process-cases P server_ca ctx inst s) [
        | inl stops ↦ rw stops.0 r
        | inr l ↦ elim (Bool-cases (inst.val.spec.type == account_type_org)) [
          | inl same ↦
              let is_org = (eq_iff _ _).0 same in
              rw (process-eq-process_org P server_ca ctx inst s l is_org, world-process_org)
                (Sound-Rooted l.account_cluster s.world _
                  (L.get-patch_elsewhere l.account_cluster _ _ s.world)
                  (write_org-Sound L A l.account_cluster s.world _ ((placed l).0 is_org)) r)
          | inr differ ↦
              let not_org : inst.val.spec.type ≢ account_type_org =
                λ p. cc (differ, (eq_iff _ _).1 p) in
              rw (process-eq-process_child P server_ca ctx inst s l not_org)
                (child-Rooted _ l.cluster l.account_cluster ((placed l).1 not_org) r)
        ]
      ]
