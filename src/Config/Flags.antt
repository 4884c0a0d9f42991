-- ===== src/Config/Flags.antt =====
-- internal/config/config.go: AddFlags. A flag is registered with the pflag library by a pointer to
-- its setting, its name, its default and a text; the pointer is what it does to the settings.
use account_operator.Base.{String, ◌≡◌, refl, Bool, true, List, [], ◌∷◌, map, distinct}
use account_operator.Base.Int.{ℤ}
use account_operator.Config.{OperatorConfig}

-- `&c.F`
abbrev pub Pointer : Type 0 → Type 0
Pointer A = A → OperatorConfig → OperatorConfig

pub data Flag : Type 0 where
  bool_var : Pointer Bool → String → Bool → String → Flag
  string_var : Pointer String → String → String → String → Flag
  int_var : Pointer ℤ → String → ℤ → String → Flag
  string_slice_var : Pointer (List String) → String → List String → String → Flag

unfoldable pub add_flags : OperatorConfig → List Flag
add_flags c =
    bool_var (λ v c. record c { webhooks = record c.webhooks { enabled = v } }) "webhooks-enabled"
      c.webhooks.enabled "Enable webhook server"
    ∷ string_var (λ v c. record c { webhooks = record c.webhooks { cert_dir = v } })
        "webhooks-cert-dir" c.webhooks.cert_dir "Set webhook certificate directory"
    ∷ int_var (λ v c. record c { webhooks = record c.webhooks { port = v } }) "webhooks-port"
        c.webhooks.port "Set webhook server port"
    ∷ string_var (λ v c. record c { webhooks = record c.webhooks { deny_list = v } })
        "webhooks-deny-list" c.webhooks.deny_list "Comma-separated list of denied account names"
    ∷ string_slice_var
        (λ v c. record c { webhooks = record c.webhooks { additional_account_types = v } })
        "webhooks-additional-account-types" c.webhooks.additional_account_types
        "Additional allowed account types"
    ∷ bool_var (λ v c. record c { subroutines = record c.subroutines { workspace_type = v } })
        "subroutines-workspace-type-enabled" c.subroutines.workspace_type
        "Enable workspace type subroutine"
    ∷ bool_var (λ v c. record c { subroutines = record c.subroutines { workspace = v } })
        "subroutines-workspace-enabled" c.subroutines.workspace "Enable workspace subroutine"
    ∷ bool_var (λ v c. record c { subroutines = record c.subroutines { workspace_ready = v } })
        "subroutines-workspace-ready-enabled" c.subroutines.workspace_ready
        "Enable workspace ready subroutine"
    ∷ bool_var (λ v c. record c { subroutines = record c.subroutines { account_info = v } })
        "subroutines-account-info-enabled" c.subroutines.account_info
        "Enable account info subroutine"
    ∷ bool_var (λ v c. record c { controllers = record c.controllers { account_info = v } })
        "controllers-account-info-enabled" c.controllers.account_info
        "Enable account info controller"
    ∷ string_var (λ v c. record c { kcp = record c.kcp { api_export_endpoint_slice_name = v } })
        "kcp-api-export-endpoint-slice-name" c.kcp.api_export_endpoint_slice_name
        "Set APIExportEndpointSlice name"
    ∷ string_var (λ v c. record c { kcp = record c.kcp { provider_workspace = v } })
        "kcp-provider-workspace" c.kcp.provider_workspace "Set provider workspace"
    ∷ []

abbrev pub name : Flag → String
name (bool_var _ n _ _) = n
name (string_var _ n _ _) = n
name (int_var _ n _ _) = n
name (string_slice_var _ n _ _) = n

-- What the library does first: it writes the default through the pointer.
abbrev pub write_default : Flag → OperatorConfig → OperatorConfig
write_default (bool_var p _ v _) c = p v c
write_default (string_var p _ v _) c = p v c
write_default (int_var p _ v _) c = p v c
write_default (string_slice_var p _ v _) c = p v c

abbrev pub write_defaults : List Flag → OperatorConfig → OperatorConfig
write_defaults [] c = c
write_defaults (f ∷ fs) c = write_defaults fs (write_default f c)

-- Every setting has its flag: what the flags of the settings `d` hold, written through the flags'
-- pointers into any settings `c`, makes them `d`. No two flags have the same name, which the library
-- would refuse by a panic.
pub write_defaults-add_flags :
    (c d : OperatorConfig)
    → (write_defaults (add_flags d) c ≡ d) × (distinct (map name (add_flags d)) ≡ true)
unfolding add_flags
write_defaults-add_flags c d = (refl, refl)
