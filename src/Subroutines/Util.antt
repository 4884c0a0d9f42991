-- ===== src/Subroutines/Util.antt =====
-- pkg/subroutines/util/util.go
pub mod Names
pub mod Clashes
use account_operator.Base.{String, ◌<>◌}
use account_operator.Api.Account.{AccountType}

-- `fmt.Sprintf("%s-%s", accountName, accountType)`
unfoldable pub get_workspace_type_name : String → AccountType → String
get_workspace_type_name account_name account_type = account_name <> ("-" <> account_type)
