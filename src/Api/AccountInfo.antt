-- ===== src/Api/AccountInfo.antt =====
-- api/v1alpha1/account_info_types.go: the AccountInfo resource.
use account_operator.Base.{String, Option, none, List}
use account_operator.Base.Dict.{Dict}
use account_operator.Meta.{ObjectMeta, named}
use account_operator.Api.Account.{AccountType}

pub record ClusterInfo : Type 0 where
  pub ca : String

pub record AccountLocation : Type 0 where
  pub name : String
  pub generated_cluster_id : String
  pub origin_cluster_id : String
  pub path : String
  pub url : String
  pub type : AccountType

pub record StoreInfo : Type 0 where
  pub id : String

pub record FgaInfo : Type 0 where
  pub store : StoreInfo

pub record ClientInfo : Type 0 where
  pub client_id : String

pub record OidcInfo : Type 0 where
  pub issuer_url : String
  pub clients : Option (Dict ClientInfo)

pub record AccountInfoSpec : Type 0 where
  pub fga : FgaInfo
  pub account : AccountLocation
  pub parent_account : Option AccountLocation
  pub organization : AccountLocation
  pub cluster_info : ClusterInfo
  pub oidc : Option OidcInfo

pub record AccountInfoStatus : Type 0 where

pub record AccountInfo : Type 0 where
  pub meta : ObjectMeta
  pub spec : AccountInfoSpec
  pub status : AccountInfoStatus

pub record AccountInfoList : Type 0 where
  pub items : List AccountInfo

-- The zero values of Go.
abbrev pub no_location : AccountLocation
no_location = record {
  name = "";
  generated_cluster_id = "";
  origin_cluster_id = "";
  path = "";
  url = "";
  type = "";
}

abbrev pub empty_spec : AccountInfoSpec
empty_spec = record {
  fga = record { store = record { id = "" } };
  account = no_location;
  parent_account = none;
  organization = no_location;
  cluster_info = record { ca = "" };
  oidc = none;
}

-- `&AccountInfo{ObjectMeta: ObjectMeta{Name: name}}`
abbrev pub new_account_info : String → AccountInfo
new_account_info n = record { meta = named n; spec = empty_spec; status = record {} }
