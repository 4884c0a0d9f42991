-- ===== src/Api/DeepCopy/Copy.antt =====
-- The `DeepCopy` and `DeepCopyObject` methods. A nil receiver gives nil.
use account_operator.Base.{Option, none, some}
use account_operator.Meta.{Ref}
use account_operator.Api.AccountInfo.{
  AccountLocation, ClientInfo, ClusterInfo, FgaInfo, StoreInfo, AccountInfoStatus,
}
use account_operator.Api.DeepCopy.Alloc.{Alloc, pure, ◌>>=◌, new_copy}
use account_operator.Api.DeepCopy.Layout.{
  Account, AccountDefaulter, AccountInfo, AccountInfoList, AccountInfoSpec, AccountList,
  AccountSpec, AccountStatus, AccountValidator, Extension, OidcInfo,
}
use account_operator.Api.DeepCopy.Into.{
  account_into, account_defaulter_into, account_info_into, account_info_list_into,
  account_info_spec_into, account_info_status_into, account_list_into, account_location_into,
  account_spec_into, account_status_into, account_validator_into, client_info_into,
  cluster_info_into, extension_into, fga_info_into, oidc_info_into, store_info_into,
}
use account_operator.Api.DeepCopy.Packages.{Packages, memory}

-- A method that is called on a pointer, and copies what it points to.
abbrev DeepCopy : Type 0 → Type 0
DeepCopy A = Option (Ref A) → Alloc (Option (Ref A))

unfoldable pub account_defaulter_copy : DeepCopy AccountDefaulter
account_defaulter_copy = new_copy account_defaulter_into

unfoldable pub account_info_status_copy : DeepCopy AccountInfoStatus
account_info_status_copy = new_copy account_info_status_into

unfoldable pub account_location_copy : DeepCopy AccountLocation
account_location_copy = new_copy account_location_into

unfoldable pub client_info_copy : DeepCopy ClientInfo
client_info_copy = new_copy client_info_into

unfoldable pub cluster_info_copy : DeepCopy ClusterInfo
cluster_info_copy = new_copy cluster_info_into

unfoldable pub fga_info_copy : DeepCopy FgaInfo
fga_info_copy = new_copy fga_info_into

unfoldable pub store_info_copy : DeepCopy StoreInfo
store_info_copy = new_copy store_info_into

module _ (P : Packages) where
  unfoldable pub extension_copy : DeepCopy (Extension (memory P))
  extension_copy = new_copy (extension_into P)

  unfoldable pub account_spec_copy : DeepCopy (AccountSpec (memory P))
  account_spec_copy = new_copy (account_spec_into P)

  unfoldable pub account_status_copy : DeepCopy (AccountStatus (memory P))
  account_status_copy = new_copy (account_status_into P)

  unfoldable pub account_copy : DeepCopy (Account (memory P))
  account_copy = new_copy (account_into P)

  unfoldable pub account_list_copy : DeepCopy (AccountList (memory P))
  account_list_copy = new_copy (account_list_into P)

  unfoldable pub oidc_info_copy : DeepCopy (OidcInfo (memory P))
  oidc_info_copy = new_copy (oidc_info_into P)

  unfoldable pub account_info_spec_copy : DeepCopy (AccountInfoSpec (memory P))
  account_info_spec_copy = new_copy (account_info_spec_into P)

  unfoldable pub account_info_copy : DeepCopy (AccountInfo (memory P))
  account_info_copy = new_copy (account_info_into P)

  unfoldable pub account_info_list_copy : DeepCopy (AccountInfoList (memory P))
  account_info_list_copy = new_copy (account_info_list_into P)

  unfoldable pub account_validator_copy : DeepCopy (AccountValidator (memory P))
  account_validator_copy = new_copy (account_validator_into P)

  -- A `runtime.Object` of the API group, which is nil or one of the four kinds.
  pub data RuntimeObject : Type 0 where
    nil : RuntimeObject
    account : Ref (Account (memory P)) → RuntimeObject
    account_list : Ref (AccountList (memory P)) → RuntimeObject
    account_info : Ref (AccountInfo (memory P)) → RuntimeObject
    account_info_list : Ref (AccountInfoList (memory P)) → RuntimeObject

  -- `if c := in.DeepCopy(); c != nil { return c }; return nil`
  abbrev object : {A : Type 0} → (Ref A → RuntimeObject) → Option (Ref A) → Alloc RuntimeObject
  object wrap none = pure nil
  object wrap (some r) = pure (wrap r)

  unfoldable pub account_copy_object : Option (Ref (Account (memory P))) → Alloc RuntimeObject
  unfolding account_copy
  account_copy_object in_ = do c ← account_copy in_; object account c

  unfoldable pub account_list_copy_object :
      Option (Ref (AccountList (memory P))) → Alloc RuntimeObject
  unfolding account_list_copy
  account_list_copy_object in_ = do c ← account_list_copy in_; object account_list c

  unfoldable pub account_info_copy_object :
      Option (Ref (AccountInfo (memory P))) → Alloc RuntimeObject
  unfolding account_info_copy
  account_info_copy_object in_ = do c ← account_info_copy in_; object account_info c

  unfoldable pub account_info_list_copy_object :
      Option (Ref (AccountInfoList (memory P))) → Alloc RuntimeObject
  unfolding account_info_list_copy
  account_info_list_copy_object in_ = do c ← account_info_list_copy in_; object account_info_list c
