-- ===== src/Platform/Laws.antt =====
-- What the API servers are assumed to do: the documented effect of `CreateOrUpdate`,
-- `CreateOrPatch` and `Delete` on what a later `Get` returns, if nothing else writes in between.
-- Time-outs, conflicts and refusals stay possible: a call may fail at any time.
use account_operator.Base.{String, Bool, ◌≡◌, ◌≢◌, ◌⊎◌, inl, inr, true, none}
use account_operator.Meta.{ObjectMeta}
use account_operator.Api.Account.{Account}
use account_operator.Api.AccountInfo.{AccountInfo}
use account_operator.Kcp.{Workspace, WorkspaceType}
use account_operator.Platform.{Platform, Client, Result, ok, err, OperationResult}

-- What is read at another name is as before.
pub kept_elsewhere :
    {C R : Type 0} {c c' : C} {n n' : String} {r r' : R}
    → n ≢ n'
    → ((c ≡ c') × (n ≡ n')) ⊎ (r' ≡ r)
    → r' ≡ r
kept_elsewhere differ (inl (_, same)) = absurd (differ same)
kept_elsewhere differ (inr kept) = kept

module _ {W E C A : Type 0} (meta : A → ObjectMeta) (not_found : E → Bool)
    (cl : Client W E C A) where
  -- The object that a write starts from: the one stored, or else the one given.
  abbrev pub StartsFrom : C → A → W → A → Type 0
  StartsFrom c a w x =
      (cl.get c (meta a).name w ≡ ok x)
      ⊎ ((e : E) × (cl.get c (meta a).name w ≡ err e) × (not_found e ≡ true) × (x ≡ a))

  -- A write that succeeds has stored what the mutation makes of that object.
  pub record Stored (c : C) (a : A) (f : A → Result E A) (w w' : W) : Type 0 where
    pub start : A
    pub stored : A
    pub starts : StartsFrom c a w start
    pub mutated : f start ≡ ok stored
    pub read : cl.get c (meta a).name w' ≡ ok stored

  -- No write at one name of one cluster changes what is read at another.
  abbrev pub Elsewhere : C → String → W → W → Type 0
  Elsewhere c n w w' =
      (c' : C) (n' : String) → ((c ≡ c') × (n ≡ n')) ⊎ (cl.get c' n' w' ≡ cl.get c' n' w)

  -- The object is not there, or it is being deleted.
  abbrev pub IsGoing : Result E A → Type 0
  IsGoing (ok a) = (meta a).deletion_timestamp ≢ none
  IsGoing (err e) = not_found e ≡ true

  pub record ClientLaws : Type 0 where
    -- `Get` returns an object of the name that was asked for.
    pub name-get : (c : C) (n : String) (w : W) {a : A} → cl.get c n w ≡ ok a → (meta a).name ≡ n
    pub get-update :
        (c : C) (a : A) (f : A → Result E A) (w : W) {r : OperationResult}
        → (cl.create_or_update c a f w).0 ≡ ok r
        → Stored c a f w (cl.create_or_update c a f w).1
    pub get-patch :
        (c : C) (a : A) (f : A → Result E A) (w : W) {r : OperationResult}
        → (cl.create_or_patch c a f w).0 ≡ ok r
        → Stored c a f w (cl.create_or_patch c a f w).1
    pub get-update_elsewhere :
        (c : C) (a : A) (f : A → Result E A) (w : W)
        → Elsewhere c (meta a).name w (cl.create_or_update c a f w).1
    pub get-patch_elsewhere :
        (c : C) (a : A) (f : A → Result E A) (w : W)
        → Elsewhere c (meta a).name w (cl.create_or_patch c a f w).1
    pub get-delete :
        (c : C) (n : String) (w : W)
        → (cl.delete c n w).0 ≡ ok tt
        → IsGoing (cl.get c n (cl.delete c n w).1)
    pub get-delete_absent :
        (c : C) (n : String) (w : W) {e : E}
        → (cl.delete c n w).0 ≡ err e
        → not_found e ≡ true
        → IsGoing (cl.get c n (cl.delete c n w).1)
    pub get-delete_elsewhere : (c : C) (n : String) (w : W) → Elsewhere c n w (cl.delete c n w).1

  -- A write that fails has been carried out all the same, or not at all.
  pub record AtomicLaws : Type 0 where
    pub get-update_failed :
        (c : C) (a : A) (f : A → Result E A) (w : W) {e : E}
        → (cl.create_or_update c a f w).0 ≡ err e
        → Stored c a f w (cl.create_or_update c a f w).1
          ⊎ (cl.get c (meta a).name (cl.create_or_update c a f w).1 ≡ cl.get c (meta a).name w)
    pub get-patch_failed :
        (c : C) (a : A) (f : A → Result E A) (w : W) {e : E}
        → (cl.create_or_patch c a f w).0 ≡ err e
        → Stored c a f w (cl.create_or_patch c a f w).1
          ⊎ (cl.get c (meta a).name (cl.create_or_patch c a f w).1 ≡ cl.get c (meta a).name w)

abbrev pub AccountInfoLaws : Platform → Type 0
AccountInfoLaws P = ClientLaws (λ (a : AccountInfo). a.meta) P.is_not_found P.account_infos

abbrev pub AtomicInfoLaws : Platform → Type 0
AtomicInfoLaws P = AtomicLaws (λ (a : AccountInfo). a.meta) P.is_not_found P.account_infos

abbrev pub WorkspaceTypeLaws : Platform → Type 0
WorkspaceTypeLaws P = ClientLaws (λ (a : WorkspaceType). a.meta) P.is_not_found P.workspace_types

abbrev pub WorkspaceLaws : Platform → Type 0
WorkspaceLaws P = ClientLaws (λ (a : Workspace). a.meta) P.is_not_found P.workspaces

-- `SetOwnerReference` touches the owner references alone.
pub record OwnerLaws (P : Platform) : Type 0 where
  pub spec-set_owner :
      (owner : Account) (ws : Workspace) {ws' : Workspace}
      → P.set_owner_reference owner ws ≡ ok ws'
      → ws'.spec ≡ ws.spec

-- `SetOwnerReference` adds no reference that is there already.
pub record OwnerAgain (P : Platform) : Type 0 where
  pub set_owner_again :
      (owner : Account) (ws : Workspace) {ws' : Workspace}
      → P.set_owner_reference owner ws ≡ ok ws'
      → P.set_owner_reference owner ws' ≡ ok ws'

-- Writes of workspace types leave the clusters that the manager knows as they are.
pub record ClusterLaws (P : Platform) : Type 0 where
  pub get_cluster-patch :
      (c : P.Cluster) (a : WorkspaceType) (f : WorkspaceType → Result P.ApiError WorkspaceType)
      (w : P.World) (n : String)
      → P.get_cluster n (P.workspace_types.create_or_patch c a f w).1 ≡ P.get_cluster n w

-- No call of the one client changes what the other one reads.
pub record Apart {W E C A B : Type 0} (cl : Client W E C A) (other : Client W E C B) : Type 0 where
  pub get-update :
      (c : C) (a : A) (f : A → Result E A) (w : W) (c' : C) (n : String)
      → other.get c' n (cl.create_or_update c a f w).1 ≡ other.get c' n w
  pub get-patch :
      (c : C) (a : A) (f : A → Result E A) (w : W) (c' : C) (n : String)
      → other.get c' n (cl.create_or_patch c a f w).1 ≡ other.get c' n w
  pub get-delete :
      (c : C) (m : String) (w : W) (c' : C) (n : String)
      → other.get c' n (cl.delete c m w).1 ≡ other.get c' n w

-- Objects of one kind are stored apart from those of another.
pub record KindLaws (P : Platform) : Type 0 where
  pub infos-workspaces : Apart P.account_infos P.workspaces
  pub types-workspaces : Apart P.workspace_types P.workspaces
  pub infos-types : Apart P.account_infos P.workspace_types
  pub workspaces-types : Apart P.workspaces P.workspace_types
  pub types-infos : Apart P.workspace_types P.account_infos
  pub workspaces-infos : Apart P.workspaces P.account_infos
  pub infos-accounts : Apart P.account_infos P.accounts
  pub types-accounts : Apart P.workspace_types P.accounts
  pub workspaces-accounts : Apart P.workspaces P.accounts
