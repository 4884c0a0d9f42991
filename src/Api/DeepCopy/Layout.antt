-- ===== src/Api/DeepCopy/Layout.antt =====
-- The API types as they lie in memory, and, with the pointers taken away, as values.
use account_operator.Base.{ℕ, String, Option, List}
use account_operator.Meta.{TypeMeta}
use account_operator.Api.Account.{AccountType}
use account_operator.Api.AccountInfo.{AccountLocation, FgaInfo, ClusterInfo, AccountInfoStatus}

-- What a pointer is, and the types of other packages that these types hold by value.
pub record Shape : Type 1 where
  pub Pointer : Type 0 → Type 0
  pub Clients : Type 0
  pub ObjectMeta : Type 0
  pub ListMeta : Type 0
  pub Json : Type 0
  pub Condition : Type 0
  pub Time : Type 0

pub record AccountDefaulter : Type 0 where

module _ (S : Shape) where
  pub record Extension : Type 0 where
    pub type_meta : TypeMeta
    pub metadata_go_template : S.Json
    pub spec_go_template : S.Json
    pub ready_condition_type : Option (S.Pointer String)

  pub record AccountSpec : Type 0 where
    pub type : AccountType
    pub display_name : String
    pub description : Option (S.Pointer String)
    pub creator : Option (S.Pointer String)
    pub extensions : Option (S.Pointer (List Extension))
    pub extra_data : Option (S.Pointer S.Json)

  pub record AccountStatus : Type 0 where
    pub conditions : Option (S.Pointer (List S.Condition))
    pub observed_generation : ℕ
    pub next_reconcile_time : S.Time

  pub record Account : Type 0 where
    pub type_meta : TypeMeta
    pub meta : S.ObjectMeta
    pub spec : AccountSpec
    pub status : AccountStatus

  pub record AccountList : Type 0 where
    pub type_meta : TypeMeta
    pub meta : S.ListMeta
    pub items : Option (S.Pointer (List Account))

  pub record OidcInfo : Type 0 where
    pub issuer_url : String
    pub clients : Option (S.Pointer S.Clients)

  pub record AccountInfoSpec : Type 0 where
    pub fga : FgaInfo
    pub account : AccountLocation
    pub parent_account : Option (S.Pointer AccountLocation)
    pub organization : AccountLocation
    pub cluster_info : ClusterInfo
    pub oidc : Option (S.Pointer OidcInfo)

  pub record AccountInfo : Type 0 where
    pub type_meta : TypeMeta
    pub meta : S.ObjectMeta
    pub spec : AccountInfoSpec
    pub status : AccountInfoStatus

  pub record AccountInfoList : Type 0 where
    pub type_meta : TypeMeta
    pub meta : S.ListMeta
    pub items : Option (S.Pointer (List AccountInfo))

  pub record AccountValidator : Type 0 where
    pub organization_name_deny_list : Option (S.Pointer (List String))
    pub account_type_allow_list : Option (S.Pointer (List AccountType))
