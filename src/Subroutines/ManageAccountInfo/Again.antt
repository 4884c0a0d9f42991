-- ===== src/Subroutines/ManageAccountInfo/Again.antt =====
-- Processing an account once more.
use account_operator.Base.{
  String, ◌==◌, ◌≡◌, refl, sym, ap, ◌∙◌, ◌≢◌, inl, inr, arith, eq_iff, Bool-cases,
}
use account_operator.Meta.{Ref}
use account_operator.Api.Account.{Account, account_type_org}
use account_operator.Api.AccountInfo.{AccountInfo, AccountLocation}
use account_operator.Platform.{Platform, Context, Result, ok}
use account_operator.Platform.Laws.{AccountInfoLaws}
use account_operator.ClusteredName.{account}
use account_operator.Exec.{State, returns, done}
use account_operator.Subroutines.ManageAccountInfo.{process, default_account_info_name}
use account_operator.Subroutines.ManageAccountInfo.Locate.{Located}
use account_operator.Subroutines.ManageAccountInfo.Provision.{
  location, Located-OrgInfo, Located-ChildInfo, Located_elsewhere,
}
use account_operator.Subroutines.ManageAccountInfo.Write.{OrgInfo, ChildInfo}

module _ (P : Platform) (server_ca : String) where
  abbrev get : P.Cluster → P.World → Result P.ApiError AccountInfo
  get c w = P.account_infos.get c default_account_info_name w

  -- Between the two runs nothing has changed that a run reads.
  pub record Unchanged (w w1 w' : P.World) : Type 0 where
    pub clusters : (n : String) → P.get_cluster n w' ≡ P.get_cluster n w
    pub workspaces : (c : P.Cluster) (n : String) → P.workspaces.get c n w' ≡ P.workspaces.get c n w
    pub infos : (c : P.Cluster) → get c w' ≡ get c w1

  org_again :
      (self : AccountLocation) (c : P.Cluster) (w w1 w' w2 : P.World)
      → OrgInfo P server_ca self c w w1
      → get c w' ≡ get c w1
      → OrgInfo P server_ca self c w' w2
      → get c w2 ≡ get c w'
  org_again self c w w1 w' w2 a same b = elim b.starts [
    | inl e ↦
        let old : b.before ≡ a.info = ground (arith, e, same, a.read) in
        let new : b.info ≡ a.info = b.whole ∙ rw (old, a.whole) refl in
        b.read ∙ ap ok new ∙ sym (same ∙ a.read)
    | inr (x, e, _, _) ↦ absurd (ground (arith, e, same, a.read))
  ]

  child_again :
      (self : AccountLocation) (parent c : P.Cluster) (w w1 w' w2 : P.World)
      → (a : ChildInfo P server_ca self parent c w w1) → get c w' ≡ get c w1
      → (b : ChildInfo P server_ca self parent c w' w2) → b.parent ≡ a.parent
      → get c w2 ≡ get c w'
  child_again self parent c w w1 w' w2 a same b same_parent = elim b.starts [
    | inl e ↦
        let old : b.before ≡ a.info = ground (arith, e, same, a.read) in
        let new : b.info ≡ a.info = b.whole ∙ rw (same_parent, old, a.whole) refl in
        b.read ∙ ap ok new ∙ sym (same ∙ a.read)
    | inr (x, e, _, _) ↦ absurd (ground (arith, e, same, a.read))
  ]

  module _ (L : AccountInfoLaws P) (ctx : Context) (inst : Ref Account) (s s' : State P) where
    abbrev after : P.World
    after = (process P server_ca ctx (account inst) s).1.world

    located_again :
        (l : Located P server_ca ctx inst s)
        → Unchanged s.world after s'.world
        → Located P server_ca ctx inst s'
    located_again l u = record {
      cluster_id = l.cluster_id;
      in_context = l.in_context;
      cluster = l.cluster;
      found = u.clusters l.cluster_id ∙ l.found;
      workspace = l.workspace;
      owned = u.workspaces l.cluster inst.val.meta.name ∙ l.owned;
      phase = l.phase;
      path = l.path;
      url = l.url;
      addressed = l.addressed;
      account_cluster = l.account_cluster;
      reached = u.clusters l.workspace.spec.cluster ∙ l.reached;
    }

    -- Where the subroutine has succeeded for an account whose workspace has a cluster other than the
    -- account's own, and nothing that a run reads has changed since, another run that succeeds
    -- leaves the AccountInfo of the workspace's cluster as it is.
    pub account_info_again :
        (l : Located P server_ca ctx inst s)
        → l.account_cluster ≢ l.cluster
        → (process P server_ca ctx (account inst) s).0 ≡ returns done
        → Unchanged s.world after s'.world
        → (process P server_ca ctx (account inst) s').0 ≡ returns done
        → get l.account_cluster (process P server_ca ctx (account inst) s').1.world
          ≡ get l.account_cluster s'.world
    unfolding located_again
    account_info_again l apart h u h' = elim (Bool-cases (inst.val.spec.type == account_type_org)) [
      | inl t ↦
          let is_org = (eq_iff _ _).0 t in
          org_again (location P server_ca ctx inst s l) l.account_cluster s.world after s'.world _
            (Located-OrgInfo P server_ca L ctx inst s l is_org h) (u.infos l.account_cluster)
            (Located-OrgInfo P server_ca L ctx inst s' (located_again l u) is_org h')
      | inr t ↦
          let child : inst.val.spec.type ≢ account_type_org = λ p. cc (t, (eq_iff _ _).1 p) in
          let a = Located-ChildInfo P server_ca L ctx inst s l child h in
          let b = Located-ChildInfo P server_ca L ctx inst s' (located_again l u) child h' in
          let kept : get l.cluster after ≡ get l.cluster s.world =
            elim (Located_elsewhere P server_ca L ctx inst s l l.cluster
              default_account_info_name) [ inl (e, _) ↦ absurd (apart e) | inr e ↦ e ] in
          let parent : b.parent ≡ a.parent =
            ground (arith, b.parent_read, u.infos l.cluster, kept, a.parent_read) in
          child_again (location P server_ca ctx inst s l) l.cluster l.account_cluster s.world after
            s'.world _ a (u.infos l.account_cluster) b parent
    ]
