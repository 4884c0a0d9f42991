-- ===== src/Api/Account.antt =====
-- api/v1alpha1/account_types.go: the Account resource.
use account_operator.Base.{ℕ, String, Option, none, List, []}
use account_operator.Meta.{TypeMeta, ObjectMeta, Condition, Json, named}

abbrev pub AccountType : Type 0
AccountType = String

abbrev pub account_type_org : AccountType
account_type_org = "org"

abbrev pub account_type_account : AccountType
account_type_account = "account"

pub record Extension : Type 0 where
  pub type_meta : TypeMeta
  pub metadata_go_template : Json
  pub spec_go_template : Json
  pub ready_condition_type : Option String

pub record AccountSpec : Type 0 where
  pub type : AccountType
  pub display_name : String
  pub description : Option String
  pub creator : Option String
  pub extensions : List Extension
  pub extra_data : Option Json

pub record AccountStatus : Type 0 where
  pub conditions : List Condition
  pub observed_generation : ℕ
  pub next_reconcile_time : ℕ

pub record Account : Type 0 where
  pub meta : ObjectMeta
  pub spec : AccountSpec
  pub status : AccountStatus

pub record AccountList : Type 0 where
  pub items : List Account

-- The zero value of `AccountStatus`.
abbrev pub no_status : AccountStatus
no_status = record { conditions = []; observed_generation = 0; next_reconcile_time = 0 }

-- An Account of which only the name and the type are set.
abbrev pub plain_account : String → AccountType → Account
plain_account n t = record {
  meta = named n;
  spec = record {
    type = t;
    display_name = "";
    description = none;
    creator = none;
    extensions = [];
    extra_data = none;
  };
  status = no_status;
}

unfoldable pub get_observed_generation : Account → ℕ
get_observed_generation i = i.status.observed_generation

unfoldable pub set_observed_generation : ℕ → Account → Account
set_observed_generation g i = record i { status = record i.status { observed_generation = g } }

unfoldable pub get_next_reconcile_time : Account → ℕ
get_next_reconcile_time i = i.status.next_reconcile_time

unfoldable pub set_next_reconcile_time : ℕ → Account → Account
set_next_reconcile_time t i = record i { status = record i.status { next_reconcile_time = t } }

unfoldable pub get_conditions : Account → List Condition
get_conditions i = i.status.conditions

unfoldable pub set_conditions : List Condition → Account → Account
set_conditions cs i = record i { status = record i.status { conditions = cs } }
