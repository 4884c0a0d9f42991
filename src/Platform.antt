-- ===== src/Platform.antt =====
-- Everything that the operator calls and does not implement, as one interface: the API servers
-- of the logical clusters behind multicluster-runtime's manager and controller-runtime's client,
-- the helpers of controllerutil, the rate limiter of golang-commons and the clock.
-- A call that reads is a function of the world, and one that writes also returns the next world.
-- What these calls are assumed to do stands in `Platform/Laws`; `Platform/Memory` meets it.
pub mod Laws
pub mod Memory
use account_operator.Base.{ℕ, String, Bool, Option, List, ◌≡◌, refl, ◌⊎◌, inl, inr}
use account_operator.Meta.{Ref}
use account_operator.Api.Account.{Account, AccountList}
use account_operator.Api.AccountInfo.{AccountInfo}
use account_operator.Kcp.{Workspace, WorkspaceType}

-- What a Go function that may fail returns.
pub data Result {ℓ} (E A : Type ℓ) : Type ℓ where
  ok : A → Result E A
  err : E → Result E A

-- `controllerutil.OperationResult`, a string such as "created".
abbrev pub OperationResult : Type 0
OperationResult = String

-- The client's methods for the objects `A` of one kind. An object is read and deleted by its
-- name in a cluster, and written by `CreateOrUpdate` or `CreateOrPatch` with a mutation.
pub record Client (World ApiError Cluster A : Type 0) : Type 0 where
  pub get : Cluster → String → World → Result ApiError A
  pub delete : Cluster → String → World → Result ApiError (Unit {0}) × World
  pub create_or_update :
      Cluster → A → (A → Result ApiError A) → World → Result ApiError OperationResult × World
  pub create_or_patch :
      Cluster → A → (A → Result ApiError A) → World → Result ApiError OperationResult × World

-- The part of a `context.Context` that is read: the cluster name that multicluster-runtime puts
-- there, and the name of the user behind an admission request.
pub record Context : Type 0 where
  pub cluster : Option String
  pub username : Option String

pub record Platform : Type 1 where
  pub World : Type 0
  pub ApiError : Type 0
  pub Cluster : Type 0
  pub Limiter : Type 0
  -- `float64`
  pub Float : Type 0
  -- `kerrors.IsNotFound`, `meta.IsNoMatchError`
  pub is_not_found : ApiError → Bool
  pub is_no_match : ApiError → Bool
  -- `mgr.GetCluster(ctx, name)` and its client, `mgr.ClusterFromContext(ctx)`
  pub get_cluster : String → World → Result ApiError Cluster
  pub cluster_from_context : Context → World → Result ApiError Cluster
  pub workspaces : Client World ApiError Cluster Workspace
  pub workspace_types : Client World ApiError Cluster WorkspaceType
  pub account_infos : Client World ApiError Cluster AccountInfo
  pub accounts : Client World ApiError Cluster Account
  -- `List` fills the list that it is given and returns an error beside it.
  pub list_accounts : Cluster → World → AccountList × Result ApiError (Unit {0})
  -- `controllerutil.SetOwnerReference(owner, object, scheme)`
  pub set_owner_reference : Account → Workspace → Result ApiError Workspace
  -- `conditionshelper.IsTrue(wst, conditionsapi.ReadyCondition)`
  pub is_ready : WorkspaceType → Bool
  -- `kcpcorev1alpha.LogicalClusterPhaseInitializing` and `LogicalClusterPhaseReady`
  pub phase_initializing : String
  pub phase_ready : String
  -- `limiter.When(item)` and `limiter.Forget(item)`; the items are pointers.
  pub when_next : ℕ → Limiter → ℕ × Limiter
  pub forget : ℕ → Limiter → Limiter
  -- `time.Since(t).Seconds()`
  pub seconds_since : ℕ → World → Float
  -- The error of `admission.RequestFromContext` where the context holds no request.
  pub no_request : ApiError

pub Result-cases {ℓ} :
    {E A : Type ℓ} (r : Result E A) → ((a : A) × (r ≡ ok a)) ⊎ ((e : E) × (r ≡ err e))
Result-cases (ok a) = inl (a, refl)
Result-cases (err e) = inr (e, refl)
