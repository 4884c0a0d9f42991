-- ===== src/Api/DeepCopy/Into.antt =====
-- The `DeepCopyInto` methods. Each returns what `*out` holds in the end. A field that holds no
-- pointer has its copy from `*out = *in`.
use account_operator.Api.AccountInfo.{
  AccountLocation, ClientInfo, ClusterInfo, FgaInfo, StoreInfo, AccountInfoStatus,
}
use account_operator.Api.DeepCopy.Alloc.{Alloc, pure, ◌>>=◌, new_copy, each, each_entry}
use account_operator.Api.DeepCopy.Layout.{
  Account, AccountDefaulter, AccountInfo, AccountInfoList, AccountInfoSpec, AccountList,
  AccountSpec, AccountStatus, AccountValidator, Extension, OidcInfo,
}
use account_operator.Api.DeepCopy.Packages.{Packages, memory}

-- `*out = *in` is all that there is to do.
unfoldable pub account_defaulter_into : AccountDefaulter → Alloc AccountDefaulter
account_defaulter_into in_ = pure in_

unfoldable pub account_info_status_into : AccountInfoStatus → Alloc AccountInfoStatus
account_info_status_into in_ = pure in_

unfoldable pub account_location_into : AccountLocation → Alloc AccountLocation
account_location_into in_ = pure in_

unfoldable pub client_info_into : ClientInfo → Alloc ClientInfo
client_info_into in_ = pure in_

unfoldable pub cluster_info_into : ClusterInfo → Alloc ClusterInfo
cluster_info_into in_ = pure in_

unfoldable pub fga_info_into : FgaInfo → Alloc FgaInfo
fga_info_into in_ = pure (record in_ { store = in_.store })

unfoldable pub store_info_into : StoreInfo → Alloc StoreInfo
store_info_into in_ = pure in_

module _ (P : Packages) where
  unfoldable pub extension_into : Extension (memory P) → Alloc (Extension (memory P))
  extension_into in_ = do
    metadata ← P.json.into in_.metadata_go_template
    spec ← P.json.into in_.spec_go_template
    ready_condition_type ← new_copy pure in_.ready_condition_type
    pure (record in_ {
      metadata_go_template = metadata;
      spec_go_template = spec;
      ready_condition_type = ready_condition_type;
    })

  unfoldable pub account_spec_into : AccountSpec (memory P) → Alloc (AccountSpec (memory P))
  account_spec_into in_ = do
    description ← new_copy pure in_.description
    creator ← new_copy pure in_.creator
    extensions ← new_copy (each extension_into) in_.extensions
    extra_data ← new_copy P.json.into in_.extra_data
    pure (record in_ {
      description = description;
      creator = creator;
      extensions = extensions;
      extra_data = extra_data;
    })

  unfoldable pub account_status_into : AccountStatus (memory P) → Alloc (AccountStatus (memory P))
  account_status_into in_ = do
    conditions ← new_copy (each P.condition.into) in_.conditions
    time ← P.time.into in_.next_reconcile_time
    pure (record in_ { conditions = conditions; next_reconcile_time = time })

  unfoldable pub account_into : Account (memory P) → Alloc (Account (memory P))
  account_into in_ = do
    meta ← P.object_meta.into in_.meta
    spec ← account_spec_into in_.spec
    status ← account_status_into in_.status
    pure (record in_ { meta = meta; spec = spec; status = status })

  unfoldable pub account_list_into : AccountList (memory P) → Alloc (AccountList (memory P))
  account_list_into in_ = do
    meta ← P.list_meta.into in_.meta
    items ← new_copy (each account_into) in_.items
    pure (record in_ { meta = meta; items = items })

  unfoldable pub oidc_info_into : OidcInfo (memory P) → Alloc (OidcInfo (memory P))
  oidc_info_into in_ = do
    clients ← new_copy each_entry in_.clients
    pure (record in_ { clients = clients })

  unfoldable pub account_info_spec_into :
      AccountInfoSpec (memory P) → Alloc (AccountInfoSpec (memory P))
  account_info_spec_into in_ = do
    parent_account ← new_copy pure in_.parent_account
    oidc ← new_copy oidc_info_into in_.oidc
    pure (record in_ { parent_account = parent_account; oidc = oidc })

  unfoldable pub account_info_into : AccountInfo (memory P) → Alloc (AccountInfo (memory P))
  account_info_into in_ = do
    meta ← P.object_meta.into in_.meta
    spec ← account_info_spec_into in_.spec
    pure (record in_ { meta = meta; spec = spec })

  unfoldable pub account_info_list_into :
      AccountInfoList (memory P) → Alloc (AccountInfoList (memory P))
  account_info_list_into in_ = do
    meta ← P.list_meta.into in_.meta
    items ← new_copy (each account_info_into) in_.items
    pure (record in_ { meta = meta; items = items })

  unfoldable pub account_validator_into :
      AccountValidator (memory P) → Alloc (AccountValidator (memory P))
  account_validator_into in_ = do
    deny ← new_copy pure in_.organization_name_deny_list
    allow ← new_copy pure in_.account_type_allow_list
    pure (record in_ { organization_name_deny_list = deny; account_type_allow_list = allow })
