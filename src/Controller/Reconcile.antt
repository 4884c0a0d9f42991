-- ===== src/Controller/Reconcile.antt =====
-- internal/controller/account_controller.go: Reconcile
use account_operator.Base.{
  ltb, ℕ, zero, suc, refl, inl, inr, String, ◌≡◌, Bool, false, Option, none, some, [], ◌∷◌,
  if◌then◌else◌, arith,
}
use account_operator.Exec.{
  Exec, State, Error, returns, panics, pure, reads, inc_counter, ◌>>=◌, ◌>>◌,
}
use account_operator.Metrics.{accounts_reconciled, inc}
use account_operator.Platform.{Platform, Result-cases, ok, err}
use account_operator.Api.Account.{Account}
use account_operator.Base.Int.{ℤ, pos, negsuc}
use account_operator.Controller.{Request, ReconcileResult}

abbrev pub is_positive : ℤ → Bool
is_positive (pos n) = ltb 0 n
is_positive (negsuc n) = false

module _ (P : Platform) where
  -- The type under which a request is counted, "unknown" where the account cannot be read.
  abbrev pub account_type_of : Request → P.World → String
  account_type_of req w = elim (P.get_cluster req.cluster_name w) [
    | err _ ↦ "unknown"
    | ok c ↦ elim (P.accounts.get c req.name w) [ err _ ↦ "unknown" | ok a ↦ a.spec.type ]
  ]

  -- The second label: an error stands beside the result.
  abbrev pub result_label : ReconcileResult × Option (Error P.ApiError) → String
  result_label (result, some e) = "error"
  result_label (result, none) = if is_positive result.requeue_after then "requeue" else "success"

  -- `lifecycle` is the lifecycle's `Reconcile`, which returns a result and an error or nil.
  unfoldable pub reconcile :
      (Request → Exec P (ReconcileResult × Option (Error P.ApiError)))
      → Request
      → Exec P (ReconcileResult × Option (Error P.ApiError))
  reconcile lifecycle req = do
    account_type ← reads (account_type_of req)
    r ← lifecycle req
    inc_counter accounts_reconciled (account_type ∷ result_label r ∷ [])
    pure r

  -- The type of the account that a request names, or "unknown" where it cannot be read.
  pub data IsTypeOf (req : Request) (w : P.World) (type : String) : Type 0 where
    known :
        (c : P.Cluster) (a : Account)
        → P.get_cluster req.cluster_name w ≡ ok c
        → P.accounts.get c req.name w ≡ ok a
        → type ≡ a.spec.type
        → IsTypeOf req w type
    no_cluster :
        (e : P.ApiError)
        → P.get_cluster req.cluster_name w ≡ err e
        → type ≡ "unknown"
        → IsTypeOf req w type
    no_account :
        (c : P.Cluster) (e : P.ApiError)
        → P.get_cluster req.cluster_name w ≡ ok c
        → P.accounts.get c req.name w ≡ err e
        → type ≡ "unknown"
        → IsTypeOf req w type

  -- How a run counts: an error comes first, then a delay of more than zero.
  pub data CountsAs (d : ℤ) (error : Option (Error P.ApiError)) (label : String) : Type 0 where
    failed : (e : Error P.ApiError) → error ≡ some e → label ≡ "error" → CountsAs d error label
    delayed : (n : ℕ) → error ≡ none → d ≡ pos (suc n) → label ≡ "requeue" → CountsAs d error label
    at_once : error ≡ none → d ≡ pos 0 → label ≡ "success" → CountsAs d error label
    negative : (n : ℕ) → error ≡ none → d ≡ negsuc n → label ≡ "success" → CountsAs d error label

  account_type_of-IsTypeOf : (req : Request) (w : P.World) → IsTypeOf req w (account_type_of req w)
  account_type_of-IsTypeOf req w = elim (Result-cases (P.get_cluster req.cluster_name w)) [
    | inr (e, h) ↦ no_cluster e h (ground (arith, h))
    | inl (c, h) ↦ elim (Result-cases (P.accounts.get c req.name w)) [
      | inr (e, k) ↦ no_account c e h k (ground (arith, h, k))
      | inl (a, k) ↦ known c a h k (ground (arith, h, k))
    ]
  ]

  result_label-CountsAs :
      (d : ℤ) (error : Option (Error P.ApiError))
      → CountsAs d error (result_label (record { requeue_after = d }, error))
  result_label-CountsAs d (some e) = failed e refl refl
  result_label-CountsAs (pos zero) none = at_once refl refl refl
  result_label-CountsAs (pos (suc n)) none = delayed n refl refl (ground arith)
  result_label-CountsAs (negsuc n) none = negative n refl refl refl

  -- A run of the lifecycle that returns, an error beside its result or not, is counted once, under
  -- the type that the account had before it, "unknown" if it could not be read, and under "error"
  -- for an error, else "requeue" where a positive delay is asked for, else "success". The result,
  -- the error, and the state but for the sample are those of the lifecycle.
  pub reconcile_counted :
      (lifecycle : Request → Exec P (ReconcileResult × Option (Error P.ApiError))) (req : Request)
      (s : State P) (result : ReconcileResult) (error : Option (Error P.ApiError))
      → (lifecycle req s).0 ≡ returns (result, error)
      → (type : String) × (label : String) × IsTypeOf req s.world type
        × CountsAs result.requeue_after error label
        × (let s' = (lifecycle req s).1 in
            reconcile lifecycle req s ≡ (
              returns (result, error),
              record s' { samples = inc accounts_reconciled (type ∷ label ∷ []) ∷ s'.samples },
            ))
  unfolding reconcile
  reconcile_counted lifecycle req s result error h = (
    account_type_of req s.world,
    result_label (result, error),
    account_type_of-IsTypeOf req s.world,
    result_label-CountsAs result.requeue_after error,
    ground arith,
  )

  -- A panic of the lifecycle is passed on, and nothing is counted.
  pub reconcile_panics :
      (lifecycle : Request → Exec P (ReconcileResult × Option (Error P.ApiError))) (req : Request)
      (s : State P) (t : String)
      → (lifecycle req s).0 ≡ panics t
      → reconcile lifecycle req s ≡ lifecycle req s
  unfolding reconcile
  reconcile_panics lifecycle req s t h = ground arith
