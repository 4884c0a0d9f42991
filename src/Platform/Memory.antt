-- ===== src/Platform/Memory.antt =====
-- A platform that keeps its objects in lists. It meets the laws of `Platform/Laws`.
pub mod Shelf
mod Focus
use Shelf.{Objects, MemoryError, is_not_found, is_no_match, not_found, refused, get}
use Focus.{focus, focus-ClientLaws, focus-AtomicLaws}
use text.Mathlib.TextPositions.{eq_refl}
use account_operator.Base.{
  ◌||◌, ℕ, String, Bool, true, false, ◌+◌, ◌≡◌, refl, ◌==◌, ◌&&◌, Option, none, some, List, [], ◌∷◌,
  ◌++◌, contains, arith, if◌then◌else◌, Bool-cases, inl, inr,
}
use account_operator.Meta.{ObjectMeta, Condition, OwnerReference}
use account_operator.Api.Account.{Account, AccountList}
use account_operator.Api.AccountInfo.{AccountInfo}
use account_operator.Kcp.{Workspace, WorkspaceType}
use account_operator.Platform.{Platform, Context, Client, Result, ok, err}
use account_operator.Platform.Laws.{
  AccountInfoLaws, AtomicInfoLaws, WorkspaceTypeLaws, WorkspaceLaws, OwnerLaws, OwnerAgain,
  ClusterLaws, KindLaws,
}

-- The clusters, the objects of each kind with their clusters, and the time.
pub record MemoryWorld : Type 0 where
  pub clusters : List String
  pub workspaces : Objects (λ (a : Workspace). a.meta)
  pub workspace_types : Objects (λ (a : WorkspaceType). a.meta)
  pub account_infos : Objects (λ (a : AccountInfo). a.meta)
  pub accounts : Objects (λ (a : Account). a.meta)
  pub now : ℕ

abbrev find_cluster : String → MemoryWorld → Result MemoryError String
find_cluster c w = if contains w.clusters c then ok c else err not_found

abbrev accounts_of : String → List (String × Account) → List Account
accounts_of c [] = []
accounts_of c ((d, a) ∷ xs) = let rest = accounts_of c xs in if d == c then a ∷ rest else rest

abbrev condition_is_ready : List Condition → Bool
condition_is_ready [] = false
condition_is_ready (x ∷ xs) =
    if x.type == "Ready" then x.status == "True" else condition_is_ready xs

abbrev owned_by : String → List OwnerReference → Bool
owned_by n [] = false
owned_by n (r ∷ rs) = r.kind == "Account" && r.name == n || owned_by n rs

abbrev with_owner : Account → Workspace → Workspace
with_owner a ws =
    let owner : OwnerReference = record { kind = "Account"; name = a.meta.name } in
    record ws { meta = record ws.meta { owner_references = owner ∷ ws.meta.owner_references } }

-- A reference that is there already is not added again.
abbrev own : Account → Workspace → Result MemoryError Workspace
own a ws = if owned_by a.meta.name ws.meta.owner_references then ok ws else ok (with_owner a ws)

-- The delay is a second, and the limiter counts the calls.
abbrev pub memory : Platform
memory = record {
  World = MemoryWorld;
  ApiError = MemoryError;
  Cluster = String;
  Limiter = List ℕ;
  Float = ℕ;
  is_not_found = is_not_found;
  is_no_match = is_no_match;
  get_cluster = find_cluster;
  cluster_from_context =
      λ ctx w. elim ctx.cluster [ none ↦ err refused | some c ↦ find_cluster c w ];
  workspaces =
      focus (λ (a : Workspace). a.meta) (λ (w : MemoryWorld). w.workspaces)
        (λ xs w. record w { workspaces = xs });
  workspace_types =
      focus (λ (a : WorkspaceType). a.meta) (λ (w : MemoryWorld). w.workspace_types)
        (λ xs w. record w { workspace_types = xs });
  account_infos =
      focus (λ (a : AccountInfo). a.meta) (λ (w : MemoryWorld). w.account_infos)
        (λ xs w. record w { account_infos = xs });
  accounts =
      focus (λ (a : Account). a.meta) (λ (w : MemoryWorld). w.accounts)
        (λ xs w. record w { accounts = xs });
  list_accounts = λ c w. (record { items = accounts_of c w.accounts }, ok tt);
  set_owner_reference = own;
  is_ready = λ wst. condition_is_ready wst.conditions;
  phase_initializing = "Initializing";
  phase_ready = "Ready";
  when_next = λ p l. (1000000000, p ∷ l);
  forget = λ p l. [];
  seconds_since = λ t w. w.now;
  no_request = refused;
}

pub memory-AccountInfoLaws : AccountInfoLaws memory
memory-AccountInfoLaws =
    focus-ClientLaws (λ (a : AccountInfo). a.meta) (λ (w : MemoryWorld). w.account_infos)
      (λ xs w. record w { account_infos = xs }) (λ xs w. refl)

pub memory-AtomicInfoLaws : AtomicInfoLaws memory
memory-AtomicInfoLaws =
    focus-AtomicLaws (λ (a : AccountInfo). a.meta) (λ (w : MemoryWorld). w.account_infos)
      (λ xs w. record w { account_infos = xs }) (λ xs w. refl)

pub memory-WorkspaceTypeLaws : WorkspaceTypeLaws memory
memory-WorkspaceTypeLaws =
    focus-ClientLaws (λ (a : WorkspaceType). a.meta) (λ (w : MemoryWorld). w.workspace_types)
      (λ xs w. record w { workspace_types = xs }) (λ xs w. refl)

pub memory-WorkspaceLaws : WorkspaceLaws memory
memory-WorkspaceLaws =
    focus-ClientLaws (λ (a : Workspace). a.meta) (λ (w : MemoryWorld). w.workspaces)
      (λ xs w. record w { workspaces = xs }) (λ xs w. refl)

pub memory-OwnerLaws : OwnerLaws memory
memory-OwnerLaws = record { spec-set_owner = λ owner ws h. ground arith }

own-owned :
    (a : Account) (ws : Workspace)
    → owned_by a.meta.name ws.meta.owner_references ≡ true
    → own a ws ≡ ok ws
own-owned a ws h = rw h

owned_by-with_owner :
    (a : Account) (ws : Workspace)
    → owned_by a.meta.name (with_owner a ws).meta.owner_references ≡ true
owned_by-with_owner a ws = rw (eq_refl a.meta.name)

own_again : (a : Account) (ws ws' : Workspace) → own a ws ≡ ok ws' → own a ws' ≡ ok ws'
own_again a ws ws' h = elim (Bool-cases (owned_by a.meta.name ws.meta.owner_references)) [
  | inl t ↦ let e : ws' ≡ ws = ground (arith, h, t) in rw e (own-owned a ws t)
  | inr f ↦
      let e : ws' ≡ with_owner a ws = ground (arith, h, f) in
      rw e (own-owned a (with_owner a ws) (owned_by-with_owner a ws))
]

pub memory-OwnerAgain : OwnerAgain memory
memory-OwnerAgain = record { set_owner_again = λ owner ws {ws'} h. own_again owner ws ws' h }

pub memory-ClusterLaws : ClusterLaws memory
memory-ClusterLaws = record { get_cluster-patch = λ c a f w n. refl }

pub memory-KindLaws : KindLaws memory
memory-KindLaws = record {
  infos-workspaces = record {
    get-update = λ c a f w c' n. refl;
    get-patch = λ c a f w c' n. refl;
    get-delete = λ c m w c' n. refl;
  };
  types-workspaces = record {
    get-update = λ c a f w c' n. refl;
    get-patch = λ c a f w c' n. refl;
    get-delete = λ c m w c' n. refl;
  };
  infos-types = record {
    get-update = λ c a f w c' n. refl;
    get-patch = λ c a f w c' n. refl;
    get-delete = λ c m w c' n. refl;
  };
  workspaces-types = record {
    get-update = λ c a f w c' n. refl;
    get-patch = λ c a f w c' n. refl;
    get-delete = λ c m w c' n. refl;
  };
  types-infos = record {
    get-update = λ c a f w c' n. refl;
    get-patch = λ c a f w c' n. refl;
    get-delete = λ c m w c' n. refl;
  };
  workspaces-infos = record {
    get-update = λ c a f w c' n. refl;
    get-patch = λ c a f w c' n. refl;
    get-delete = λ c m w c' n. refl;
  };
  infos-accounts = record {
    get-update = λ c a f w c' n. refl;
    get-patch = λ c a f w c' n. refl;
    get-delete = λ c m w c' n. refl;
  };
  types-accounts = record {
    get-update = λ c a f w c' n. refl;
    get-patch = λ c a f w c' n. refl;
    get-delete = λ c m w c' n. refl;
  };
  workspaces-accounts = record {
    get-update = λ c a f w c' n. refl;
    get-patch = λ c a f w c' n. refl;
    get-delete = λ c m w c' n. refl;
  };
}
