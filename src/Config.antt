-- ===== src/Config.antt =====
-- internal/config/config.go: the operator's settings and their defaults.
pub mod Flags
use account_operator.Base.Int.{ℤ, pos}
use account_operator.Base.{String, Bool, true, false, List, []}

pub record WebhooksConfig : Type 0 where
  pub enabled : Bool
  pub cert_dir : String
  pub port : ℤ
  pub deny_list : String
  pub additional_account_types : List String

-- Each subroutine and the AccountInfo controller can be switched off.
pub record SubroutinesConfig : Type 0 where
  pub workspace_type : Bool
  pub workspace : Bool
  pub workspace_ready : Bool
  pub account_info : Bool

pub record ControllersConfig : Type 0 where
  pub account_info : Bool

pub record KcpConfig : Type 0 where
  pub api_export_endpoint_slice_name : String
  pub provider_workspace : String

pub record OperatorConfig : Type 0 where
  pub webhooks : WebhooksConfig
  pub subroutines : SubroutinesConfig
  pub controllers : ControllersConfig
  pub kcp : KcpConfig

abbrev pub new_operator_config : OperatorConfig
new_operator_config = record {
  webhooks = record {
    enabled = false;
    cert_dir = "certs";
    port = pos 9443;
    deny_list = "";
    additional_account_types = [];
  };
  subroutines = record {
    workspace_type = true;
    workspace = true;
    workspace_ready = true;
    account_info = true;
  };
  controllers = record { account_info = true };
  kcp = record {
    api_export_endpoint_slice_name = "core.platform-mesh.io";
    provider_workspace = "root";
  };
}
