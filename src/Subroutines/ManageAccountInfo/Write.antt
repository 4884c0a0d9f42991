-- ===== src/Subroutines/ManageAccountInfo/Write.antt =====
-- What the two writes of an AccountInfo leave: that of an organization, and that of an account
-- below one.
use account_operator.Base.{String, ◌≡◌, inl, inr, none, some, arith}
use account_operator.Meta.{Ref}
use account_operator.Api.Account.{Account}
use account_operator.Api.AccountInfo.{AccountInfo, AccountLocation, new_account_info}
use account_operator.Platform.{Platform, OperationResult, Result, ok, Result-cases}
use account_operator.Platform.Laws.{AccountInfoLaws, StartsFrom}
use account_operator.Exec.{State, returns, done}
use account_operator.Subroutines.ManageAccountInfo.{
  process_org, process_child, mutate_org, mutate_child, default_account_info_name,
}

module _ (P : Platform) where
  -- What is read for the AccountInfo of a cluster.
  abbrev pub Reads : P.Cluster → P.World → AccountInfo → Type 0
  Reads c w info = P.account_infos.get c default_account_info_name w ≡ ok info

  abbrev pub Starts : P.Cluster → P.World → AccountInfo → Type 0
  Starts c w info =
      StartsFrom (λ (a : AccountInfo). a.meta) P.is_not_found P.account_infos c
        (new_account_info default_account_info_name) w info

module _ (P : Platform) (server_ca : String) where
  pub record OrgInfo (self : AccountLocation) (c : P.Cluster) (w w' : P.World) : Type 0 where
    pub before : AccountInfo
    pub starts : Starts P c w before
    pub info : AccountInfo
    pub read : Reads P c w' info
    pub account : info.spec.account ≡ self
    pub organization : info.spec.organization ≡ self
    pub parent_account : info.spec.parent_account ≡ none
    pub ca : info.spec.cluster_info.ca ≡ server_ca
    pub fga : info.spec.fga ≡ before.spec.fga
    pub oidc : info.spec.oidc ≡ before.spec.oidc
    pub whole : info ≡ mutate_org server_ca self before

  abbrev pub write_org :
      AccountLocation → P.Cluster → P.World → Result P.ApiError OperationResult × P.World
  write_org self c w =
      P.account_infos.create_or_patch c (new_account_info default_account_info_name)
        (λ info. ok (mutate_org server_ca self info)) w

  abbrev pub write_child :
      AccountLocation
      → AccountInfo
      → P.Cluster
      → P.World
      → Result P.ApiError OperationResult × P.World
  write_child self parent c w =
      P.account_infos.create_or_update c (new_account_info default_account_info_name)
        (λ info. ok (mutate_child server_ca self parent info)) w

  pub world-process_org :
      (inst : Ref Account) (self : AccountLocation) (c : P.Cluster) (s : State P)
      → (process_org P server_ca inst self c s).1.world ≡ (write_org self c s.world).1
  unfolding process_org
  world-process_org inst self c s = ground arith

  write_org-OrgInfo :
      AccountInfoLaws P
      → (self : AccountLocation) (c : P.Cluster) (w : P.World) {r : OperationResult}
      → (write_org self c w).0 ≡ ok r
      → OrgInfo self c w (write_org self c w).1
  write_org-OrgInfo L self c w e =
      let st = L.get-patch c _ _ w e in
      record {
        before = st.start;
        starts = st.starts;
        info = st.stored;
        read = st.read;
        account = ground (arith, st.mutated);
        organization = ground (arith, st.mutated);
        parent_account = ground (arith, st.mutated);
        ca = ground (arith, st.mutated);
        fga = ground (arith, st.mutated);
        oidc = ground (arith, st.mutated);
        whole = ground (arith, st.mutated);
      }

  pub process_org-OrgInfo :
      AccountInfoLaws P
      → (inst : Ref Account) (self : AccountLocation) (c : P.Cluster) (s : State P)
      → (process_org P server_ca inst self c s).0 ≡ returns done
      → OrgInfo self c s.world (process_org P server_ca inst self c s).1.world
  unfolding process_org
  process_org-OrgInfo L inst self c s h =
      rw (world-process_org inst self c s) (elim (Result-cases (write_org self c s.world).0) [
        | inr (x, e) ↦ absurd (ground arith)
        | inl (r, e) ↦ write_org-OrgInfo L self c s.world e
      ])

  pub record ChildInfo (self : AccountLocation) (cluster c : P.Cluster) (w w' : P.World)
      : Type 0 where
    pub parent : AccountInfo
    pub parent_read : Reads P cluster w parent
    pub before : AccountInfo
    pub starts : Starts P c w before
    pub info : AccountInfo
    pub read : Reads P c w' info
    pub account : info.spec.account ≡ self
    pub organization : info.spec.organization ≡ parent.spec.organization
    pub parent_account : info.spec.parent_account ≡ some parent.spec.account
    pub ca : info.spec.cluster_info.ca ≡ server_ca
    pub store_id : info.spec.fga.store.id ≡ parent.spec.fga.store.id
    pub oidc : info.spec.oidc ≡ parent.spec.oidc
    pub whole : info ≡ mutate_child server_ca self parent before

  pub world-process_child :
      (inst : Ref Account) (self : AccountLocation) (cluster c : P.Cluster) (s : State P)
      {parent : AccountInfo}
      → Reads P cluster s.world parent
      → (process_child P server_ca inst self cluster c s).1.world
        ≡ (write_child self parent c s.world).1
  unfolding process_child
  world-process_child inst self cluster c s {parent} found = ground arith

  write_child-ChildInfo :
      AccountInfoLaws P
      → (self : AccountLocation) (parent : AccountInfo) (cluster c : P.Cluster) (w : P.World)
        {r : OperationResult}
      → Reads P cluster w parent
      → (write_child self parent c w).0 ≡ ok r
      → ChildInfo self cluster c w (write_child self parent c w).1
  write_child-ChildInfo L self parent cluster c w found e =
      let st = L.get-update c _ _ w e in
      record {
        parent = parent;
        parent_read = found;
        before = st.start;
        starts = st.starts;
        info = st.stored;
        read = st.read;
        account = ground (arith, st.mutated);
        organization = ground (arith, st.mutated);
        parent_account = ground (arith, st.mutated);
        ca = ground (arith, st.mutated);
        store_id = ground (arith, st.mutated);
        oidc = ground (arith, st.mutated);
        whole = ground (arith, st.mutated);
      }

  pub process_child-ChildInfo :
      AccountInfoLaws P
      → (inst : Ref Account) (self : AccountLocation) (cluster c : P.Cluster) (s : State P)
      → (process_child P server_ca inst self cluster c s).0 ≡ returns done
      → ChildInfo self cluster c s.world (process_child P server_ca inst self cluster c s).1.world
  unfolding process_child
  process_child-ChildInfo L inst self cluster c s h =
      elim (Result-cases (P.account_infos.get cluster default_account_info_name s.world)) [
        | inr (x, e) ↦ absurd (ground arith)
        | inl (parent, found) ↦
            rw (world-process_child inst self cluster c s found)
              (elim (Result-cases (write_child self parent c s.world).0) [
                | inr (x, e) ↦ absurd (ground arith)
                | inl (r, e) ↦ write_child-ChildInfo L self parent cluster c s.world found e
              ])
      ]
