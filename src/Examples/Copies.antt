-- ===== src/Examples/Copies.antt =====
-- Copies of an organization and of the AccountInfo of its cluster.
use account_operator.Base.{ℕ, String, refl, Option, none, some, List, [], ◌∷◌, arith}
use account_operator.Base.Dict.{Dict, lookup}
use account_operator.Meta.{Ref, TypeMeta}
use account_operator.Api.Account.{account_type_org}
use account_operator.Api.AccountInfo.{AccountLocation, ClientInfo}
use account_operator.Api.DeepCopy.Alloc.Copied.{
  plain, plain-Lawful, plain_pointer, plain_pointer-Lawful,
}
use account_operator.Api.DeepCopy.Copy.{
  account_copy, account_list_copy, account_validator_copy, account_info_copy,
  account_info_list_copy,
}
use account_operator.Api.DeepCopy.Independent.{account_validator}
use account_operator.Api.DeepCopy.Independent.Objects.{
  account, account_list, account_info, account_info_list, Independent, InUse,
  account_copies-Independent, account_info_copies-Independent,
}
use account_operator.Api.DeepCopy.Layout.{
  Account, AccountInfo, AccountInfoList, AccountList, AccountValidator, Extension,
}
use account_operator.Api.DeepCopy.Packages.{Packages, PackagesLaws, memory}

-- Names for the metadata and numbers for the times; the raw JSON is a pointer to bytes.
abbrev packages : Packages
packages = record {
  ObjectMeta = String;
  ListMeta = String;
  Json = Option (Ref (List ℕ));
  Condition = String;
  Time = ℕ;
  ObjectMetaValue = String;
  ListMetaValue = String;
  JsonValue = Option (List ℕ);
  ConditionValue = String;
  TimeValue = ℕ;
  object_meta = plain String;
  list_meta = plain String;
  json = plain_pointer (List ℕ);
  condition = plain String;
  time = plain ℕ;
}

packages_lawful : PackagesLaws packages
packages_lawful = record {
  object_meta = plain-Lawful String;
  list_meta = plain-Lawful String;
  json = plain_pointer-Lawful (List ℕ);
  condition = plain-Lawful String;
  time = plain-Lawful ℕ;
}

abbrev type_meta : TypeMeta
type_meta = record { kind = "Account"; api_version = "core.platform-mesh.io/v1alpha1" }

abbrev extension : Extension (memory packages)
extension = record {
  type_meta = type_meta;
  metadata_go_template = some (record { ptr = 1; val = 123 ∷ 125 ∷ [] });
  spec_go_template = none;
  ready_condition_type = some (record { ptr = 2; val = "Ready" });
}

-- An organization with a creator, an extension and a condition.
abbrev organization : Account (memory packages)
organization = record {
  type_meta = type_meta;
  meta = "acme";
  spec = record {
    type = account_type_org;
    display_name = "Acme";
    description = none;
    creator = some (record { ptr = 3; val = "jane" });
    extensions = some (record { ptr = 4; val = extension ∷ [] });
    extra_data = none;
  };
  status = record {
    conditions = some (record { ptr = 5; val = "Ready" ∷ [] });
    observed_generation = 1;
    next_reconcile_time = 7;
  };
}

abbrev acme : Ref (Account (memory packages))
acme = record { ptr = 6; val = organization }

abbrev accounts : Ref (AccountList (memory packages))
accounts = record {
  ptr = 8;
  val = record {
    type_meta = type_meta;
    meta = "";
    items = some (record { ptr = 7; val = organization ∷ [] });
  };
}

acme-InUse : InUse (account packages) (some acme) 9
acme-InUse = record { valid = ground arith; used = ground arith }

abbrev validator : Ref (AccountValidator (memory packages))
validator = record {
  ptr = 3;
  val = record {
    organization_name_deny_list = some (record { ptr = 1; val = "root" ∷ [] });
    account_type_allow_list = some (record { ptr = 2; val = account_type_org ∷ [] });
  };
}

validator-InUse : InUse (account_validator packages) (some validator) 9
validator-InUse = record { valid = tt; used = ground arith }

accounts-InUse : InUse (account_list packages) (some accounts) 9
accounts-InUse = record { valid = ground arith; used = ground arith }

-- The AccountInfo of the workspace of "acme".
abbrev home : AccountLocation
home = record {
  name = "acme";
  generated_cluster_id = "c1";
  origin_cluster_id = "orgs";
  path = "root:orgs:acme";
  url = "https://kcp/clusters/root:orgs:acme";
  type = account_type_org;
}

abbrev oidc_clients : Dict ClientInfo
oidc_clients =
    ("kubectl", record { client_id = "k1" }) ∷ ("portal", record { client_id = "p1" }) ∷ []

abbrev info : AccountInfo (memory packages)
info = record {
  type_meta = type_meta;
  meta = "account";
  spec = record {
    fga = record { store = record { id = "s1" } };
    account = home;
    parent_account = none;
    organization = home;
    cluster_info = record { ca = "ca" };
    oidc = some (record {
      ptr = 1;
      val = record {
        issuer_url = "https://issuer";
        clients = some (record { ptr = 2; val = oidc_clients });
      };
    });
  };
  status = record {};
}

abbrev acme_info : Ref (AccountInfo (memory packages))
acme_info = record { ptr = 3; val = info }

abbrev infos : Ref (AccountInfoList (memory packages))
infos = record {
  ptr = 5;
  val = record {
    type_meta = type_meta;
    meta = "";
    items = some (record { ptr = 4; val = info ∷ [] });
  };
}

acme_info-InUse : InUse (account_info packages) (some acme_info) 6
unfolding lookup
acme_info-InUse = record { valid = (tt, (refl, (refl, tt))); used = ground arith }

infos-InUse : InUse (account_info_list packages) (some infos) 6
unfolding lookup
infos-InUse = record { valid = (tt, ((tt, (refl, (refl, tt))), tt)); used = ground arith }

account_copies-Independent_example :
    Independent (account packages) (some acme) 9 (account_copy packages (some acme) 9)
    × Independent
        (account_list packages)
        (some accounts)
        9
        (account_list_copy packages (some accounts) 9)
    × Independent
        (account_validator packages)
        (some validator)
        9
        (account_validator_copy packages (some validator) 9)
account_copies-Independent_example =
    account_copies-Independent packages packages_lawful (some acme) (some accounts) (some validator)
      9 acme-InUse accounts-InUse validator-InUse

account_info_copies-Independent_example :
    Independent
      (account_info packages)
      (some acme_info)
      6
      (account_info_copy packages (some acme_info) 6)
    × Independent
        (account_info_list packages)
        (some infos)
        6
        (account_info_list_copy packages (some infos) 6)
account_info_copies-Independent_example =
    account_info_copies-Independent packages packages_lawful (some acme_info) (some infos) 6
      acme_info-InUse infos-InUse
