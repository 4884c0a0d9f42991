-- ===== src/Subroutines/FinalizeAccountInfo/Childless.antt =====
-- When FinalizeAccountInfo lets the account information go.
use account_operator.Base.{◌≡◌, refl, ◌⊎◌, ◌↔◌, inl, inr, true, [], ◌∷◌, List, arith}
use account_operator.Meta.{Ref}
use account_operator.Api.Account.{Account}
use account_operator.Api.AccountInfo.{AccountInfo}
use account_operator.Platform.{Platform, Context, Result, ok, err, Result-cases}
use account_operator.ClusteredName.{account_info}
use account_operator.Exec.{State, returns, done}
use account_operator.Subroutines.FinalizeAccountInfo.{finalize}

module _ (P : Platform) (ctx : Context) (inst : Ref AccountInfo) (s : State P) where
  -- `List` has succeeded, or has said that there is no such object or no such kind.
  abbrev pub Listed : Result P.ApiError (Unit {0}) → Type 0
  Listed (ok _) = Unit
  Listed (err e) = (P.is_not_found e ≡ true) ⊎ (P.is_no_match e ≡ true)

  -- The cluster of the context holds no account: `List` has filled in none, and has not failed otherwise.
  pub record Childless : Type 0 where
    pub cluster : P.Cluster
    pub found : P.cluster_from_context ctx s.world ≡ ok cluster
    pub empty : (P.list_accounts cluster s.world).0.items ≡ []
    pub listed : Listed (P.list_accounts cluster s.world).1

  list-cases : (l : List Account) → (l ≡ []) ⊎ ((x : Account) × (r : List Account) × (l ≡ x ∷ r))
  list-cases [] = inl refl
  list-cases (x ∷ r) = inr (x, r, refl)

  childless_of_done : (finalize P ctx (account_info inst) s).0 ≡ returns done → Childless
  unfolding finalize
  childless_of_done h = elim (Result-cases (P.cluster_from_context ctx s.world)) [
    | inr (x, e) ↦ absurd (ground arith)
    | inl (c, e) ↦ record {
      cluster = c;
      found = e;
      empty = elim (Result-cases (P.list_accounts c s.world).1) [
        | inl (_, e2) ↦ elim (list-cases (P.list_accounts c s.world).0.items) [
          | inl e3 ↦ e3
          | inr (_, _, e3) ↦ absurd (ground arith)
        ]
        | inr (_, e2) ↦ elim (list-cases (P.list_accounts c s.world).0.items) [
          | inl e3 ↦ e3
          | inr (_, _, e3) ↦ absurd (ground arith)
        ]
      ];
      listed = elim (Result-cases (P.list_accounts c s.world).1) [
        | inl (_, e2) ↦ rw e2 tt
        | inr (_, e2) ↦ rw e2 (ground arith)
      ];
    }
  ]

  done_of_childless : Childless → (finalize P ctx (account_info inst) s).0 ≡ returns done
  unfolding finalize
  done_of_childless k =
      let e = k.found in
      let e2 = k.empty in
      elim (Result-cases (P.list_accounts k.cluster s.world).1) [
        | inl (_, e3) ↦ ground arith
        | inr (x, e3) ↦ elim (rw e3 at k.listed) [ inl e4 ↦ ground arith | inr e4 ↦ ground arith ]
      ]

  -- Finalizing an AccountInfo succeeds exactly where the cluster of the context can be reached and
  -- the list of accounts that is read there is empty and has not failed, but for an absent kind.
  pub finalize-Childless : ((finalize P ctx (account_info inst) s).0 ≡ returns done) ↔ Childless
  finalize-Childless = (childless_of_done, done_of_childless)
