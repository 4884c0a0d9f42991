-- ===== src/Subroutines/ManageAccountInfo/Hierarchy.antt =====
-- The accounts below an organization, as ManageAccountInfo builds them one after the other.
use account_operator.Base.{subst, ◌∙◌, String, ◌≡◌, ◌≢◌, ◌⊎◌, inl, inr, List, [], ◌∷◌, All, arith}
use account_operator.Meta.{Ref}
use account_operator.Api.Account.{Account, account_type_org}
use account_operator.Api.AccountInfo.{AccountInfo, AccountLocation}
use account_operator.Platform.{Platform, Context}
use account_operator.Platform.Laws.{AccountInfoLaws}
use account_operator.ClusteredName.{account}
use account_operator.Exec.{State, returns, done}
use account_operator.Subroutines.ManageAccountInfo.{process, default_account_info_name}
use account_operator.Subroutines.ManageAccountInfo.Locate.{Located}
use account_operator.Subroutines.ManageAccountInfo.Provision.{
  location, Located-OrgInfo, Located-ChildInfo, Located_elsewhere,
}
use account_operator.Subroutines.ManageAccountInfo.Write.{Reads}

module _ (P : Platform) (server_ca : String) where
  abbrev pub Among : P.Cluster → List P.Cluster → Type 0
  Among c [] = ⊥
  Among c (d ∷ cs) = (d ≡ c) ⊎ Among c cs

  -- The world after a run of the subroutine.
  abbrev pub after : Context → Ref Account → State P → P.World
  after ctx inst s = (process P server_ca ctx (account inst) s).1.world

  abbrev pub Succeeds : Context → Ref Account → State P → Type 0
  Succeeds ctx inst s = (process P server_ca ctx (account inst) s).0 ≡ returns done

  -- The clusters of the workspaces below the organization at `org`, and the world. It starts with
  -- the organization and grows by accounts that live in one of these clusters. In between the
  -- world may change in any way that keeps the AccountInfos of these clusters.
  pub data Hierarchy (org : AccountLocation) : List P.Cluster → P.World → Type 0 where
    root :
        (ctx : Context) (inst : Ref Account) (s : State P) (l : Located P server_ca ctx inst s)
        → inst.val.spec.type ≡ account_type_org
        → Succeeds ctx inst s
        → location P server_ca ctx inst s l ≡ org
        → Hierarchy org (l.account_cluster ∷ []) (after ctx inst s)
    child :
        (ctx : Context) (inst : Ref Account) (s : State P) (l : Located P server_ca ctx inst s)
        {cs : List P.Cluster}
        → Hierarchy org cs s.world
        → inst.val.spec.type ≢ account_type_org
        → Succeeds ctx inst s
        → Among l.cluster cs
        → Hierarchy org (l.account_cluster ∷ cs) (after ctx inst s)
    other :
        {cs : List P.Cluster} {w : P.World} (w' : P.World)
        → Hierarchy org cs w
        → All
            (λ c.
              P.account_infos.get c default_account_info_name w'
              ≡ P.account_infos.get c default_account_info_name w)
            cs
        → Hierarchy org cs w'

  -- The AccountInfo of a cluster names the organization.
  abbrev pub BelongsTo : AccountLocation → P.World → P.Cluster → Type 0
  BelongsTo org w c = (info : AccountInfo) × Reads P c w info × (info.spec.organization ≡ org)

  same-BelongsTo :
      (org : AccountLocation) (w w' : P.World) (cs : List P.Cluster)
      → All
          (λ c.
            P.account_infos.get c default_account_info_name w'
            ≡ P.account_infos.get c default_account_info_name w)
          cs
      → All (BelongsTo org w) cs
      → All (BelongsTo org w') cs
  same-BelongsTo org w w' [] _ _ = tt
  same-BelongsTo org w w' (c ∷ cs) (e, es) ((info, read, o), hs) =
      ((info, e ∙ read, o), same-BelongsTo org w w' cs es hs)

  pub Among-BelongsTo :
      (org : AccountLocation) (w : P.World) (c : P.Cluster) (cs : List P.Cluster)
      → Among c cs
      → All (BelongsTo org w) cs
      → BelongsTo org w c
  Among-BelongsTo org w c [] a _ = absurd a
  Among-BelongsTo org w c (d ∷ cs) (inl e) (h, _) = subst (BelongsTo org w) e h
  Among-BelongsTo org w c (d ∷ cs) (inr a) (_, hs) = Among-BelongsTo org w c cs a hs

  -- A write at one cluster keeps the others, and itself belongs to the organization.
  elsewhere-BelongsTo :
      (org : AccountLocation) (w w' : P.World) (new : P.Cluster) (cs : List P.Cluster)
      → ((c : P.Cluster)
          → ((new ≡ c) × (default_account_info_name ≡ default_account_info_name))
            ⊎ (P.account_infos.get c default_account_info_name w'
                ≡ P.account_infos.get c default_account_info_name w))
      → BelongsTo org w' new
      → All (BelongsTo org w) cs
      → All (BelongsTo org w') cs
  elsewhere-BelongsTo org w w' new [] _ _ _ = tt
  elsewhere-BelongsTo org w w' new (c ∷ cs) keep fresh ((info, read, o), hs) = (
    elim (keep c) [ inl (e, _) ↦ subst (BelongsTo org w') e fresh | inr e ↦ (info, e ∙ read, o) ],
    elsewhere-BelongsTo org w w' new cs keep fresh hs,
  )

  module _ (L : AccountInfoLaws P) where
    -- In a hierarchy that grows by successful runs, whatever accounts are added and however deep,
    -- the AccountInfo "account" of each cluster can be read and names the organization at the root.
    pub Hierarchy-BelongsTo :
        (org : AccountLocation) {cs : List P.Cluster} {w : P.World}
        → Hierarchy org cs w
        → All (BelongsTo org w) cs
    Hierarchy-BelongsTo org (root ctx inst s l is_org succeeds at) =
        let i = Located-OrgInfo P server_ca L ctx inst s l is_org succeeds in
        ((i.info, i.read, i.organization ∙ at), tt)
    Hierarchy-BelongsTo org (child ctx inst s l {cs} h not_org succeeds among) =
        let hs = Hierarchy-BelongsTo org h in
        let (parent, read, o) = Among-BelongsTo org s.world l.cluster cs among hs in
        let i = Located-ChildInfo P server_ca L ctx inst s l not_org succeeds in
        let fresh : BelongsTo org (after ctx inst s) l.account_cluster =
          (i.info, i.read, ground (arith, i.organization, i.parent_read, read, o)) in
        (
          fresh,
          elsewhere-BelongsTo org s.world (after ctx inst s) l.account_cluster cs
              (λ c. Located_elsewhere P server_ca L ctx inst s l c default_account_info_name) fresh
              hs,
        )
    Hierarchy-BelongsTo org (other {cs} {w} w' h same) =
        same-BelongsTo org w w' cs same (Hierarchy-BelongsTo org h)
