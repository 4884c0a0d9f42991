-- ===== src/Api/Webhook/Verdict.antt =====
-- Which accounts the webhook admits.
use Prim.Native.String
use account_operator.Base.{
  String, ◌≤◌, ◌≡◌, refl, ◌≢◌, ◌⊎◌, inl, inr, ◌↔◌, String-cases, Option-cases, some, [], ◌∷◌,
  contains, contains_iff, Bool-cases, ltb, ◌==◌, OneOf, arith, eq_iff,
}
use account_operator.Base.Text.{trim_space}
use account_operator.Meta.{Ref}
use account_operator.Api.Account.{Account, account_type_org}
use account_operator.Platform.{Platform, Context}
use account_operator.Metrics.{inc, webhook_validations}
use account_operator.ClusteredName.{Object, account}
use account_operator.Exec.{State, Outcome, Error, formatted, returns, fails}
use account_operator.Api.Webhook.{
  AccountValidator, Warnings, default, validate_create, validate_update,
}

-- The type is on the allow list; if it is "org", the trimmed name has at least three bytes and
-- the name is not on the deny list.
pub record IsAdmissible (v : AccountValidator) (a : Account) : Type 0 where
  pub type_allowed : OneOf a.spec.type v.account_type_allow_list
  pub name_allowed :
      (a.spec.type ≢ account_type_org)
      ⊎ ((3 ≤ String.len (trim_space a.meta.name))
          × (¬ OneOf a.meta.name v.organization_name_deny_list))

-- A request is admitted where the validation returns no error, whatever its warnings are.
abbrev pub IsAdmitted : {E : Type 0} → Outcome E Warnings → Type 0
IsAdmitted o = (warnings : Warnings) × (o ≡ returns warnings)

-- A request is refused where the validation returns an error.
abbrev pub IsRefused : {E : Type 0} → Outcome E Warnings → Type 0
IsRefused {E} o = (e : Error E) × (o ≡ fails e)

-- What a validation decides: exactly the admissible accounts are admitted, without a warning, and
-- exactly the others are refused with an error.
pub record Judges {E : Type 0} (v : AccountValidator) (a : Account) (o : Outcome E Warnings)
    : Type 0 where
  pub admitted : IsAdmitted o ↔ IsAdmissible v a
  pub refused : IsRefused o ↔ (¬ IsAdmissible v a)
  pub silent : (o ≡ returns []) ↔ IsAdmissible v a

module _ (P : Platform) (v : AccountValidator) (inst : Ref Account) (s : State P) where
  -- Creation is admitted exactly if the account is admissible.
  pub validate_create_iff :
      ((validate_create P v (account inst) s).0 ≡ returns []) ↔ IsAdmissible v inst.val
  unfolding validate_create
  validate_create_iff = (
    λ h. record {
      type_allowed = (contains_iff v.account_type_allow_list inst.val.spec.type).0 (ground arith);
      name_allowed = elim (String-cases inst.val.spec.type account_type_org) [
        | inr e ↦ inl (λ p. cc (e, (eq_iff _ _).1 p))
        | inl e ↦ inr (
          ground (arith, eq_iff inst.val.spec.type account_type_org),
          λ m. ground (
            arith,
            eq_iff inst.val.spec.type account_type_org,
            (contains_iff v.organization_name_deny_list inst.val.meta.name).1 m,
          ),
        )
      ];
    },
    λ a. ground (
      arith,
      a.name_allowed,
      (contains_iff v.account_type_allow_list inst.val.spec.type).1 a.type_allowed,
      eq_iff inst.val.spec.type account_type_org,
      (contains_iff v.organization_name_deny_list inst.val.meta.name).0,
    ),
  )

  -- A creation is admitted without a warning, or refused.
  validate_create-cases :
      ((validate_create P v (account inst) s).0 ≡ returns [])
      ⊎ IsRefused (validate_create P v (account inst) s).0
  unfolding validate_create
  validate_create-cases =
      let account_type = inst.val.spec.type in
      let name = inst.val.meta.name in
      elim (Bool-cases (contains v.account_type_allow_list account_type)) [
        | inr off ↦
            inr (formatted "account type %s not in allowlist" (account_type ∷ []), rw off refl)
        | inl on ↦ elim (Bool-cases (account_type == account_type_org)) [
          | inr other ↦ inl (rw (on, other) refl)
          | inl org ↦ elim (Bool-cases (ltb (String.len (trim_space name)) 3)) [
            | inl short ↦ inr (
              formatted "organization name %q is too short, must be at least 3 characters"
                  (name ∷ []),
              rw (on, org, short) refl,
            )
            | inr long ↦ elim (Bool-cases (contains v.organization_name_deny_list name)) [
              | inl denied ↦ inr (
                formatted "organization name %q is not allowed" (name ∷ []),
                rw (on, org, long, denied) refl,
              )
              | inr free ↦ inl (rw (on, org, long, free) refl)
            ]
          ]
        ]
      ]

  pub validate_create-Judges : Judges v inst.val (validate_create P v (account inst) s).0
  validate_create-Judges = record {
    admitted = (
      λ (w, e). elim validate_create-cases [
        | inl h ↦ validate_create_iff.0 h
        | inr (x, h) ↦ absurd (ground arith)
      ],
      λ a. ([], validate_create_iff.1 a),
    );
    refused = (
      λ (x, e) a. let h = validate_create_iff.1 a in absurd (ground arith),
      λ no. elim validate_create-cases [
        | inl h ↦ absurd (no (validate_create_iff.0 h))
        | inr r ↦ r
      ],
    );
    silent = validate_create_iff;
  }

  -- An update is judged as the creation of the new object, the errors included.
  validate_update_lem :
      (old_obj : Object)
      → (validate_update P v old_obj (account inst) s).0 ≡ (validate_create P v (account inst) s).0
  unfolding validate_create validate_update
  validate_update_lem old_obj = ground arith

  -- A creation is admitted, without a warning, exactly if the account is admissible, and refused
  -- with an error exactly if it is not. So is an update, by the new object, whatever the old one
  -- was.
  pub validations_iff :
      (old_obj : Object)
      → Judges v inst.val (validate_create P v (account inst) s).0
        × Judges v inst.val (validate_update P v old_obj (account inst) s).0
  validations_iff old_obj =
      (validate_create-Judges, rw (validate_update_lem old_obj) validate_create-Judges)

  abbrev verdict : Outcome P.ApiError Warnings → String
  verdict (returns _) = "allowed"
  verdict _ = "denied"

  -- Every validation, of a creation or an update, is counted once, under its operation, its
  -- verdict and the account's type, and changes nothing else.
  pub validations_counted :
      (old_obj : Object)
      → let created = validate_create P v (account inst) s in
        let updated = validate_update P v old_obj (account inst) s in
        (created.1 ≡ record s {
          samples =
              inc webhook_validations ("create" ∷ verdict created.0 ∷ inst.val.spec.type ∷ [])
              ∷ s.samples;
        })
        × (updated.1 ≡ record s {
          samples =
              inc webhook_validations ("update" ∷ verdict updated.0 ∷ inst.val.spec.type ∷ [])
              ∷ s.samples;
        })
  unfolding validate_create validate_update
  validations_counted old_obj = (ground arith, ground arith)

module _ (P : Platform) (inst : Ref Account) (s : State P) where
  -- Defaulting succeeds exactly if the request names a user, and then it overwrites the creator
  -- with this user, whatever creator the account had, and changes nothing else of it.
  pub default_creator :
      (ctx : Context) (a : Account)
      → ((default P ctx (account inst) s).0 ≡ returns a) ↔ (
          (username : String) × (ctx.username ≡ some username)
          × (a ≡ record inst.val { spec = record inst.val.spec { creator = some username } }))
  unfolding default
  default_creator ctx a = (
    λ h. elim (Option-cases ctx.username) [
      | inl e ↦ absurd (ground (arith, e))
      | inr (username, e) ↦ (username, e, ground (arith, e))
    ],
    λ (username, e, made). ground (arith, e, made),
  )
