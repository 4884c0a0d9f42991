-- ===== src/Operator.antt =====
-- cmd/operator.go: the lists that the operator hands to the webhook.
pub mod Lists
pub mod Admitted
pub mod Boot
pub mod Run
pub mod Root
use account_operator.Base.{String, not, ◌==◌, List, [], ◌∷◌, ◌++◌, map, if◌then◌else◌}
use account_operator.Base.Text.{split, trim_space}
use account_operator.Api.Account.{AccountType, account_type_org}
use account_operator.Api.Webhook.{AccountValidator}
use account_operator.Config.{WebhooksConfig}

-- `strings.Split(list, ",")` with every item trimmed, or nil.
unfoldable pub parse_deny_list : String → List String
parse_deny_list list = if not (list == "") then map trim_space (split b',' list) else []

-- The loop that appends the additional types.
append_types : List AccountType → List String → List AccountType
append_types types [] = types
append_types types (t ∷ ts) = append_types (types ++ t ∷ []) ts

unfoldable pub account_type_allow_list : List String → List AccountType
unfolding append_types
account_type_allow_list additional = append_types (account_type_org ∷ []) additional

-- The validator that `SetupAccountWebhookWithManager` registers.
unfoldable pub account_validator : WebhooksConfig → AccountValidator
unfolding parse_deny_list account_type_allow_list
account_validator cfg = record {
  organization_name_deny_list = parse_deny_list cfg.deny_list;
  account_type_allow_list = account_type_allow_list cfg.additional_account_types;
}
