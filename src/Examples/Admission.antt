-- ===== src/Examples/Admission.antt =====
-- Accounts at the webhook.
use account_operator.Base.{
  String, ◌≡◌, refl, ◌↔◌, inl, inr, true, Option, some, [], ◌∷◌, map, OneOf, All,
}
use account_operator.Base.Text.{split, trim_space}
use account_operator.Base.Text.SplitLaws.{Lacks, join, split-Lacks}
use account_operator.Base.Int.{pos}
use account_operator.Config.{WebhooksConfig}
use account_operator.Meta.{Ref}
use account_operator.Api.Account.{Account, account_type_org, account_type_account, plain_account}
use account_operator.Api.Webhook.{AccountValidator, default, validate_create, validate_update}
use account_operator.Api.Webhook.Verdict.{
  Judges, IsRefused, validations_iff, validations_counted, default_creator,
}
use account_operator.ClusteredName.{account}
use account_operator.Exec.{returns}
use account_operator.Metrics.{inc, webhook_validations}
use account_operator.Operator.{parse_deny_list, account_type_allow_list, account_validator}
use account_operator.Operator.Admitted.{admitted_apart}
use account_operator.Operator.Lists.{parse_deny_list-join, admitted_types, denied_by_config}
use account_operator.Platform.Memory.{memory}
use account_operator.Examples.{acme, team, at, state, empty_world}

abbrev validator : AccountValidator
validator = record {
  organization_name_deny_list = "admin" ∷ [];
  account_type_allow_list = "org" ∷ "account" ∷ [];
}

validations_iff_example :
    Judges validator acme.val
      (validate_create memory validator (account acme) (state empty_world)).0
    × Judges validator acme.val
        (validate_update memory validator (account team) (account acme) (state empty_world)).0
validations_iff_example = validations_iff memory validator acme (state empty_world) (account team)

default_creator_example :
    ((default memory (at "orgs") (account acme) (state empty_world)).0
      ≡ returns (record acme.val { spec = record acme.val.spec { creator = some "jane" } }))
    ↔ ((username : String) × (◌≡◌ {A = Option String} (some "jane") (some username))
        × (record acme.val { spec = record acme.val.spec { creator = some "jane" } }
            ≡ record acme.val { spec = record acme.val.spec { creator = some username } }))
default_creator_example =
    default_creator memory acme (state empty_world) (at "orgs")
      (record acme.val { spec = record acme.val.spec { creator = some "jane" } })

acme_defaulted :
    (default memory (at "orgs") (account acme) (state empty_world)).0
    ≡ returns (record acme.val { spec = record acme.val.spec { creator = some "jane" } })
unfolding default
acme_defaulted = refl

abbrev config : WebhooksConfig
config = record {
  enabled = true;
  cert_dir = "certs";
  port = pos 9443;
  deny_list = "admin, root";
  additional_account_types = "account" ∷ [];
}

without_commas : All (Lacks b',') ("admin" ∷ " root" ∷ [])
unfolding split
without_commas = split-Lacks b',' "admin, root"

deny_list_read :
    parse_deny_list (join "," ("admin" ∷ " root" ∷ [])) ≡ map trim_space ("admin" ∷ " root" ∷ [])
deny_list_read = parse_deny_list-join ("admin" ∷ " root" ∷ []) without_commas (cc)

abbrev root_account : Ref Account
root_account = record { ptr = 4; val = plain_account "root" account_type_org }

denied_by_config_example :
    IsRefused
      (validate_create memory
        (account_validator config)
        (account root_account)
        (state empty_world)).0
unfolding trim_space
denied_by_config_example =
    denied_by_config memory config ("admin" ∷ " root" ∷ []) " root" root_account (state empty_world)
      without_commas refl (cc) (inr (inl refl)) refl refl

acme_admitted :
    (validate_create memory (account_validator config) (account acme) (state empty_world)).0
    ≡ returns []
unfolding validate_create account_validator parse_deny_list account_type_allow_list trim_space split
acme_admitted = refl

acme_type_allowed : OneOf "org" ("org" ∷ "account" ∷ [])
acme_type_allowed = admitted_types memory config acme (state empty_world) ([], acme_admitted)

abbrev crew : Ref Account
crew = record { ptr = 6; val = plain_account "crew" account_type_account }

team_admitted :
    (validate_create memory (account_validator config) (account team) (state empty_world)).0
    ≡ returns []
unfolding validate_create account_validator parse_deny_list account_type_allow_list trim_space split
team_admitted = refl

crew_admitted :
    (validate_create memory (account_validator config) (account crew) (state empty_world)).0
    ≡ returns []
unfolding validate_create account_validator parse_deny_list account_type_allow_list trim_space split
crew_admitted = refl

account_dashless : All (Lacks b'-') ("account" ∷ [])
account_dashless = ((refl, (refl, (refl, (refl, (refl, (refl, (refl, tt))))))), tt)

admitted_apart_example :
    ◌≡◌ {A = String} "acme" "acme" × (account_type_account ≡ account_type_account)
admitted_apart_example =
    admitted_apart memory config account_dashless team crew (state empty_world) (state empty_world)
      "acme" "acme" ([], team_admitted) ([], crew_admitted) refl

team_counted :
    ((validate_create memory validator (account team) (state empty_world)).1
      ≡ record (state empty_world) {
        samples = inc webhook_validations ("create" ∷ "allowed" ∷ "account" ∷ []) ∷ [];
      })
    × ((validate_update memory validator (account team) (account team) (state empty_world)).1
        ≡ record (state empty_world) {
          samples = inc webhook_validations ("update" ∷ "allowed" ∷ "account" ∷ []) ∷ [];
        })
unfolding validate_create validate_update
team_counted = validations_counted memory validator team (state empty_world) (account team)
