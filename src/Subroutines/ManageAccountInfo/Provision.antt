-- ===== src/Subroutines/ManageAccountInfo/Provision.antt =====
-- What a successful `Process` of ManageAccountInfo has written: the AccountInfo of an
-- organization, and that of an account below one.
use account_operator.Base.{ap, Bool-cases, ◌==◌, String, ◌≡◌, ◌⊎◌, ◌≢◌, inl, inr, arith, eq_iff}
use account_operator.Meta.{Ref}
use account_operator.Api.Account.{Account, account_type_org}
use account_operator.Api.AccountInfo.{AccountLocation}
use account_operator.Platform.{Platform, Context, Result-cases}
use account_operator.Platform.Laws.{AccountInfoLaws}
use account_operator.ClusteredName.{account}
use account_operator.Exec.{State, returns, done}
use account_operator.Subroutines.ManageAccountInfo.{
  process, process_org, process_child, self_location, default_account_info_name,
}
use account_operator.Subroutines.ManageAccountInfo.Locate.{Located, process-cases, process-Located}
use account_operator.Subroutines.ManageAccountInfo.Write.{
  OrgInfo, ChildInfo, world-process_org, process_org-OrgInfo, world-process_child,
  process_child-ChildInfo,
}

module _ (P : Platform) (server_ca : String) where
  module _ (ctx : Context) (inst : Ref Account) (s : State P) where
    abbrev pub location : Located P server_ca ctx inst s → AccountLocation
    location l = self_location inst.val l.workspace l.cluster_id l.path l.url

    pub process-eq-process_org :
        (l : Located P server_ca ctx inst s)
        → inst.val.spec.type ≡ account_type_org
        → process P server_ca ctx (account inst) s
          ≡ process_org P server_ca inst (location l) l.account_cluster s
    unfolding process
    process-eq-process_org l org = ground (
      arith,
      l.in_context,
      l.found,
      l.owned,
      l.phase,
      l.addressed,
      l.reached,
      eq_iff inst.val.spec.type account_type_org,
      eq_iff l.workspace.phase P.phase_initializing,
      eq_iff l.workspace.phase P.phase_ready,
    )

    pub process-eq-process_child :
        (l : Located P server_ca ctx inst s)
        → inst.val.spec.type ≢ account_type_org
        → process P server_ca ctx (account inst) s
          ≡ process_child P server_ca inst (location l) l.cluster l.account_cluster s
    unfolding process
    process-eq-process_child l child = ground (
      arith,
      l.in_context,
      l.found,
      l.owned,
      l.phase,
      l.addressed,
      l.reached,
      eq_iff inst.val.spec.type account_type_org,
      eq_iff l.workspace.phase P.phase_initializing,
      eq_iff l.workspace.phase P.phase_ready,
    )

  module _ (L : AccountInfoLaws P) (ctx : Context) (inst : Ref Account) (s : State P) where
    pub Located-OrgInfo :
        (l : Located P server_ca ctx inst s)
        → inst.val.spec.type ≡ account_type_org
        → (process P server_ca ctx (account inst) s).0 ≡ returns done
        → OrgInfo P server_ca
            (location ctx inst s l)
            l.account_cluster
            s.world
            (process P server_ca ctx (account inst) s).1.world
    Located-OrgInfo l org h =
        let e = process-eq-process_org ctx inst s l org in
        rw e (process_org-OrgInfo P server_ca L inst _ l.account_cluster s (rw e at h))

    pub Located-ChildInfo :
        (l : Located P server_ca ctx inst s)
        → inst.val.spec.type ≢ account_type_org
        → (process P server_ca ctx (account inst) s).0 ≡ returns done
        → ChildInfo P server_ca
            (location ctx inst s l)
            l.cluster
            l.account_cluster
            s.world
            (process P server_ca ctx (account inst) s).1.world
    Located-ChildInfo l child h =
        let e = process-eq-process_child ctx inst s l child in
        rw e
          (process_child-ChildInfo P server_ca L inst _ l.cluster l.account_cluster s (rw e at h))

    -- If the subroutine succeeds for an account of type "org", it has found the account's cluster,
    -- its workspace, in one of the two phases and with a usable URL, and the workspace's cluster.
    -- The AccountInfo "account" of that cluster then names the account itself as account and as
    -- organization, has no parent and holds the server's CA. Its FGA and OIDC parts are those of
    -- the AccountInfo that was there before, or empty if there was none.
    pub process-OrgInfo :
        inst.val.spec.type ≡ account_type_org
        → (process P server_ca ctx (account inst) s).0 ≡ returns done
        → (l : Located P server_ca ctx inst s) × OrgInfo P server_ca
            (location ctx inst s l)
            l.account_cluster
            s.world
            (process P server_ca ctx (account inst) s).1.world
    process-OrgInfo org h =
        let l = process-Located P server_ca ctx inst s h in (l, Located-OrgInfo l org h)

    -- If the subroutine succeeds for an account of any other type, it has found the same, and the
    -- AccountInfo "account" in the account's own cluster, the parent. The AccountInfo "account" of
    -- the workspace's cluster then names the account as account and the parent's account as parent
    -- account, has the parent's organization, store id and OIDC part, and holds the server's CA.
    pub process-ChildInfo :
        inst.val.spec.type ≢ account_type_org
        → (process P server_ca ctx (account inst) s).0 ≡ returns done
        → (l : Located P server_ca ctx inst s) × ChildInfo P server_ca
            (location ctx inst s l)
            l.cluster
            l.account_cluster
            s.world
            (process P server_ca ctx (account inst) s).1.world
    process-ChildInfo child h =
        let l = process-Located P server_ca ctx inst s h in (l, Located-ChildInfo l child h)

    process_child_elsewhere :
        (self : AccountLocation) (from to c : P.Cluster) (n : String)
        → ((to ≡ c) × (default_account_info_name ≡ n))
          ⊎ (P.account_infos.get c n (process_child P server_ca inst self from to s).1.world
              ≡ P.account_infos.get c n s.world)
    unfolding process_child
    process_child_elsewhere self from to c n =
        elim (Result-cases (P.account_infos.get from default_account_info_name s.world)) [
          | inr (x, e) ↦ inr (ground arith)
          | inl (parent, e) ↦
              rw (world-process_child P server_ca inst self from to s e)
                (L.get-update_elsewhere to _ _ s.world c n)
        ]

    pub Located_elsewhere :
        (l : Located P server_ca ctx inst s) (c : P.Cluster) (n : String)
        → ((l.account_cluster ≡ c) × (default_account_info_name ≡ n))
          ⊎ (P.account_infos.get c n (process P server_ca ctx (account inst) s).1.world
              ≡ P.account_infos.get c n s.world)
    Located_elsewhere l c n = elim (Bool-cases (inst.val.spec.type == account_type_org)) [
      | inl same ↦
          rw (process-eq-process_org ctx inst s l ((eq_iff _ _).0 same), world-process_org)
            (L.get-patch_elsewhere l.account_cluster _ _ s.world c n)
      | inr differ ↦
          rw (process-eq-process_child ctx inst s l (λ p. cc (differ, (eq_iff _ _).1 p)))
            (process_child_elsewhere (location ctx inst s l) l.cluster l.account_cluster c n)
    ]

    -- Whatever the outcome, an AccountInfo reads as before unless it is the one named "account" in
    -- the cluster of the account's workspace, and the run has found this workspace, in one of the
    -- two phases and with a usable URL, and its cluster.
    pub process_elsewhere :
        (c : P.Cluster) (n : String)
        → ((l : Located P server_ca ctx inst s) × (l.account_cluster ≡ c)
            × (default_account_info_name ≡ n))
          ⊎ (P.account_infos.get c n (process P server_ca ctx (account inst) s).1.world
              ≡ P.account_infos.get c n s.world)
    process_elsewhere c n = elim (process-cases P server_ca ctx inst s) [
      | inl stops ↦ inr (ap (P.account_infos.get c n) stops.0)
      | inr l ↦ elim (Located_elsewhere l c n) [ inl (e, m) ↦ inl (l, e, m) | inr e ↦ inr e ]
    ]
