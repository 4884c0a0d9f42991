-- ===== src/Api/Webhook.antt =====
-- api/v1alpha1/account_webhook.go: the admission webhook of the Account resource.
pub mod Verdict
use Prim.Native.String
use account_operator.Base.{
  String, not, ◌==◌, some, none, List, [], ◌∷◌, contains, ltb, if◌then◌else◌,
}
use account_operator.Base.Text.{trim_space}
use account_operator.Meta.{Ref}
use account_operator.Api.Account.{Account, AccountType, account_type_org}
use account_operator.Platform.{Platform, Context}
use account_operator.Metrics.{webhook_validations}
use account_operator.ClusteredName.{Object, as_account}
use account_operator.Exec.{Exec, api, formatted, ◌>>=◌, ◌>>◌, pure, fail, inc_counter}

pub record AccountValidator : Type 0 where
  pub organization_name_deny_list : List String
  pub account_type_allow_list : List AccountType

-- What the webhook builder is told before `Complete`. The defaulter has no settings.
pub record WebhookSetup : Type 0 where
  pub kind : String
  pub validator : AccountValidator

-- `complete` is the builder's `Complete()`.
abbrev pub setup_account_webhook_with_manager :
    {R : Type 0} → (WebhookSetup → R) → List String → List AccountType → R
setup_account_webhook_with_manager complete deny_list allow_list = complete (record {
  kind = "Account";
  validator = record {
    organization_name_deny_list = deny_list;
    account_type_allow_list = allow_list;
  };
})

-- `admission.Warnings`
abbrev pub Warnings : Type 0
Warnings = List String

module _ (P : Platform) where
  -- `AccountDefaulter.Default`. It writes into the object that it is given; the result here is
  -- that object after the write.
  unfoldable pub default : Context → Object → Exec P Account
  default ctx obj = do
    inst ← as_account obj
    elim ctx.username [
      | none ↦ fail (api P.no_request)
      | some username ↦ do
        let spec = record inst.val.spec { creator = some username }
        pure (record inst.val { spec = spec })
    ]

  unfoldable pub validate_create : AccountValidator → Object → Exec P Warnings
  validate_create v obj = do
    inst ← as_account obj
    let account_type = inst.val.spec.type
    let name = inst.val.meta.name
    if not (contains v.account_type_allow_list account_type)
        then (do
          inc_counter webhook_validations ("create" ∷ "denied" ∷ account_type ∷ [])
          fail (formatted "account type %s not in allowlist" (account_type ∷ [])))
        else do
          if not (account_type == account_type_org)
              then (do
                inc_counter webhook_validations ("create" ∷ "allowed" ∷ account_type ∷ [])
                pure [])
              else do
                if ltb (String.len (trim_space name)) 3
                    then (do
                      inc_counter webhook_validations ("create" ∷ "denied" ∷ account_type ∷ [])
                      fail (
                          formatted
                            "organization name %q is too short, must be at least 3 characters"
                            (name ∷ [])))
                    else do
                      if contains v.organization_name_deny_list name
                          then (do
                            inc_counter webhook_validations
                                ("create" ∷ "denied" ∷ account_type ∷ [])
                            fail (formatted "organization name %q is not allowed" (name ∷ [])))
                          else do
                            inc_counter webhook_validations
                                ("create" ∷ "allowed" ∷ account_type ∷ [])
                            pure []

  -- The old object is not read.
  unfoldable pub validate_update : AccountValidator → Object → Object → Exec P Warnings
  validate_update v old_obj new_obj = do
    inst ← as_account new_obj
    let account_type = inst.val.spec.type
    let name = inst.val.meta.name
    if not (contains v.account_type_allow_list account_type)
        then (do
          inc_counter webhook_validations ("update" ∷ "denied" ∷ account_type ∷ [])
          fail (formatted "account type %s not in allowlist" (account_type ∷ [])))
        else do
          if not (account_type == account_type_org)
              then (do
                inc_counter webhook_validations ("update" ∷ "allowed" ∷ account_type ∷ [])
                pure [])
              else do
                if ltb (String.len (trim_space name)) 3
                    then (do
                      inc_counter webhook_validations ("update" ∷ "denied" ∷ account_type ∷ [])
                      fail (
                          formatted
                            "organization name %q is too short, must be at least 3 characters"
                            (name ∷ [])))
                    else do
                      if contains v.organization_name_deny_list name
                          then (do
                            inc_counter webhook_validations
                                ("update" ∷ "denied" ∷ account_type ∷ [])
                            fail (formatted "organization name %q is not allowed" (name ∷ [])))
                          else do
                            inc_counter webhook_validations
                                ("update" ∷ "allowed" ∷ account_type ∷ [])
                            pure []

  unfoldable pub validate_delete : AccountValidator → Object → Exec P Warnings
  validate_delete v obj = pure []
