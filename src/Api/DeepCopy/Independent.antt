-- ===== src/Api/DeepCopy/Independent.antt =====
-- The copied types, with what they stand for and the addresses that they hold, and that their
-- `DeepCopyInto` makes deep copies.
pub mod Objects
use account_operator.Base.{
  ℕ, String, ◌≡◌, refl, ap, Option, none, some, List, [], ◌∷◌, ◌++◌, map, arith,
}
use account_operator.Base.Dict.{Dict, IsMap, lookup, lookup-copy, copy}
use mathlib.Core.Path.{fun_ext}
use account_operator.Meta.{Ref}
use account_operator.Api.AccountInfo.{AccountLocation, ClientInfo}
use account_operator.Api.DeepCopy.Alloc.{each_entry, each, new_copy, pure}
use account_operator.Api.DeepCopy.Alloc.Copied.{
  Copying, Copied, Lawful, Fresh, Fresh-append, plain_pointer, plain_pointer-Lawful, pointer,
  pointer-Lawful, slice, slice-Lawful,
}
use account_operator.Api.DeepCopy.Layout.{
  Account, AccountInfo, AccountInfoList, AccountInfoSpec, AccountList, AccountSpec, AccountStatus,
  AccountValidator, Extension, OidcInfo,
}
use account_operator.Api.DeepCopy.Into.{
  account_into, account_info_into, account_info_list_into, account_info_spec_into,
  account_list_into, account_spec_into, account_status_into, account_validator_into, extension_into,
  oidc_info_into,
}
use account_operator.Api.DeepCopy.Packages.{Packages, PackagesLaws, memory, values}

abbrev clients : Copying (Dict ClientInfo) (String → Option ClientInfo)
clients = record {
  into = each_entry;
  value = λ m k. lookup m k;
  addresses = λ m. [];
  IsValid = IsMap;
}

over-none : (o : Option ClientInfo) → account_operator.Base.Dict.over o none ≡ o
over-none none = refl
over-none (some v) = refl

clients-Lawful : Lawful clients
unfolding lookup
clients-Lawful m n h = record {
  same = fun_ext (λ k. rw (lookup-copy m [] k h, over-none));
  fresh = omega arith;
}

module _ (P : Packages) where
  abbrev text : Copying (Option (Ref String)) (Option String)
  text = plain_pointer String

  abbrev pub extension : Copying (Extension (memory P)) (Extension (values P))
  extension = record {
    into = extension_into P;
    value = λ x. record {
      type_meta = x.type_meta;
      metadata_go_template = P.json.value x.metadata_go_template;
      spec_go_template = P.json.value x.spec_go_template;
      ready_condition_type = text.value x.ready_condition_type;
    };
    addresses = λ x.
        P.json.addresses x.metadata_go_template
        ++ (P.json.addresses x.spec_go_template ++ text.addresses x.ready_condition_type);
    IsValid = λ x. P.json.IsValid x.metadata_go_template × P.json.IsValid x.spec_go_template;
  }

  abbrev pub account_spec : Copying (AccountSpec (memory P)) (AccountSpec (values P))
  account_spec = record {
    into = account_spec_into P;
    value = λ x. record {
      type = x.type;
      display_name = x.display_name;
      description = text.value x.description;
      creator = text.value x.creator;
      extensions = (slice extension).value x.extensions;
      extra_data = (pointer P.json).value x.extra_data;
    };
    addresses = λ x.
        text.addresses x.description
        ++ (text.addresses x.creator
            ++ ((slice extension).addresses x.extensions
                ++ (pointer P.json).addresses x.extra_data));
    IsValid = λ x. (slice extension).IsValid x.extensions × (pointer P.json).IsValid x.extra_data;
  }

  abbrev pub account_status : Copying (AccountStatus (memory P)) (AccountStatus (values P))
  account_status = record {
    into = account_status_into P;
    value = λ x. record {
      conditions = (slice P.condition).value x.conditions;
      observed_generation = x.observed_generation;
      next_reconcile_time = P.time.value x.next_reconcile_time;
    };
    addresses =
        λ x. (slice P.condition).addresses x.conditions ++ P.time.addresses x.next_reconcile_time;
    IsValid = λ x. (slice P.condition).IsValid x.conditions × P.time.IsValid x.next_reconcile_time;
  }

  abbrev pub oidc_info : Copying (OidcInfo (memory P)) (OidcInfo (values P))
  oidc_info = record {
    into = oidc_info_into P;
    value = λ x. record { issuer_url = x.issuer_url; clients = (pointer clients).value x.clients };
    addresses = λ x. (pointer clients).addresses x.clients;
    IsValid = λ x. (pointer clients).IsValid x.clients;
  }

  abbrev pub account_info_spec : Copying (AccountInfoSpec (memory P)) (AccountInfoSpec (values P))
  account_info_spec = record {
    into = account_info_spec_into P;
    value = λ x. record {
      fga = x.fga;
      account = x.account;
      parent_account = (plain_pointer AccountLocation).value x.parent_account;
      organization = x.organization;
      cluster_info = x.cluster_info;
      oidc = (pointer oidc_info).value x.oidc;
    };
    addresses = λ x.
        (plain_pointer AccountLocation).addresses x.parent_account
        ++ (pointer oidc_info).addresses x.oidc;
    IsValid = λ x. (pointer oidc_info).IsValid x.oidc;
  }

  abbrev pub account_validator : Copying (AccountValidator (memory P)) (AccountValidator (values P))
  account_validator = record {
    into = account_validator_into P;
    value = λ x. record {
      organization_name_deny_list =
          (plain_pointer (List String)).value x.organization_name_deny_list;
      account_type_allow_list = (plain_pointer (List String)).value x.account_type_allow_list;
    };
    addresses = λ x.
        (plain_pointer (List String)).addresses x.organization_name_deny_list
        ++ (plain_pointer (List String)).addresses x.account_type_allow_list;
    IsValid = λ x. Unit;
  }

  oidc_info-Lawful : Lawful oidc_info
  unfolding oidc_info_into
  oidc_info-Lawful x n h =
      let a = pointer-Lawful clients clients-Lawful x.clients n h in
      record { same = cc a.same; fresh = a.fresh }

  pub account_info_spec-Lawful : Lawful account_info_spec
  unfolding account_info_spec_into
  account_info_spec-Lawful x n h =
      let a = plain_pointer-Lawful AccountLocation x.parent_account n tt in
      let m = (new_copy pure x.parent_account n).1 in
      let b = pointer-Lawful oidc_info oidc_info-Lawful x.oidc m h in
      record { same = cc (a.same, b.same); fresh = Fresh-append n m _ _ _ a.fresh b.fresh }

  pub account_validator-Lawful : Lawful account_validator
  unfolding account_validator_into
  account_validator-Lawful x n h =
      let a = plain_pointer-Lawful (List String) x.organization_name_deny_list n tt in
      let m = (new_copy pure x.organization_name_deny_list n).1 in
      let b = plain_pointer-Lawful (List String) x.account_type_allow_list m tt in
      record { same = cc (a.same, b.same); fresh = Fresh-append n m _ _ _ a.fresh b.fresh }

  module _ (L : PackagesLaws P) where
    extension-Lawful : Lawful extension
    unfolding extension_into
    extension-Lawful x n (h1, h2) =
        let a = L.json x.metadata_go_template n h1 in
        let m1 = (P.json.into x.metadata_go_template n).1 in
        let b = L.json x.spec_go_template m1 h2 in
        let m2 = (P.json.into x.spec_go_template m1).1 in
        let c = plain_pointer-Lawful String x.ready_condition_type m2 tt in
        record {
          same = cc (a.same, b.same, c.same);
          fresh = Fresh-append n m1 _ _ _ a.fresh (Fresh-append m1 m2 _ _ _ b.fresh c.fresh);
        }

    pub account_spec-Lawful : Lawful account_spec
    unfolding account_spec_into
    account_spec-Lawful x n (h1, h2) =
        let a = plain_pointer-Lawful String x.description n tt in
        let m1 = (new_copy pure x.description n).1 in
        let b = plain_pointer-Lawful String x.creator m1 tt in
        let m2 = (new_copy pure x.creator m1).1 in
        let c = slice-Lawful extension extension-Lawful x.extensions m2 h1 in
        let m3 = ((slice extension).into x.extensions m2).1 in
        let d = pointer-Lawful P.json L.json x.extra_data m3 h2 in
        record {
          same = cc (a.same, b.same, c.same, d.same);
          fresh =
              Fresh-append n m1 _ _ _ a.fresh
                (Fresh-append m1 m2 _ _ _ b.fresh (Fresh-append m2 m3 _ _ _ c.fresh d.fresh));
        }

    pub account_status-Lawful : Lawful account_status
    unfolding account_status_into
    account_status-Lawful x n (h1, h2) =
        let a = slice-Lawful P.condition L.condition x.conditions n h1 in
        let m = ((slice P.condition).into x.conditions n).1 in
        let b = L.time x.next_reconcile_time m h2 in
        record { same = cc (a.same, b.same); fresh = Fresh-append n m _ _ _ a.fresh b.fresh }
