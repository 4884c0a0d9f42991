-- ===== src/Subroutines/WorkspaceType/Isolation.antt =====
-- Which workspace types may stand below which, as the generated types say.
use account_operator.Base.{
  String, ◌≡◌, refl, ◌↔◌, ◌==◌, ◌&&◌, ◌||◌, Bool, true, false, Option, none, some, List, [], ◌∷◌,
  arith, eq_iff, inr,
}
use account_operator.Api.Account.{AccountType, account_type_org, account_type_account}
use account_operator.Kcp.{WorkspaceType, WorkspaceTypeReference}
use account_operator.Subroutines.Util.{get_workspace_type_name}
use account_operator.Subroutines.Util.Names.{org-ne-account, get_workspace_type_name_injective}
use account_operator.Subroutines.WorkspaceType.{
  orgs_workspace_path, generate_org_workspace_type, generate_account_workspace_type,
}

pub data Kind : Type 0 where
  org account : Kind

abbrev kind_type : Kind → AccountType
kind_type org = account_type_org
kind_type account = account_type_account

-- The two workspace types of an organization, under the names that the subroutine gives them.
abbrev pub generated : Kind → String → WorkspaceType
generated org name =
    generate_org_workspace_type (get_workspace_type_name name account_type_org)
      (get_workspace_type_name name account_type_account) name
generated account name =
    generate_account_workspace_type (get_workspace_type_name name account_type_org)
      (get_workspace_type_name name account_type_account) name

-- A list of references names a type of the orgs workspace.
abbrev names_type : List WorkspaceTypeReference → WorkspaceType → Bool
names_type [] wst = false
names_type (r ∷ rs) wst =
    r.name == wst.meta.name && r.path == orgs_workspace_path || names_type rs wst

-- No limit allows everything.
abbrev allows : Option (List WorkspaceTypeReference) → WorkspaceType → Bool
allows none wst = true
allows (some rs) wst = names_type rs wst

-- The parent allows the child, and the child the parent.
abbrev pub permits : WorkspaceType → WorkspaceType → Bool
permits parent child =
    allows parent.spec.limit_allowed_children child
    && allows child.spec.limit_allowed_parents parent

same_org :
    (a b : String)
    → get_workspace_type_name a account_type_account
      ≡ get_workspace_type_name b account_type_account
    → a ≡ b
same_org a b h =
    (get_workspace_type_name_injective a b account_type_account account_type_account (inr refl)
      (inr refl) h).0

-- Of two generated types, the first may stand above the second as their limits on parents and on
-- children say exactly if both are of the same organization and the second is its account type.
pub permits_iff :
    (k l : Kind) (a b : String)
    → (permits (generated k a) (generated l b) ≡ true) ↔ ((a ≡ b) × (l ≡ account))
unfolding generate_org_workspace_type generate_account_workspace_type
permits_iff org org a b = ground (
  arith,
  org-ne-account b a,
  eq_iff (get_workspace_type_name a account_type_account)
      (get_workspace_type_name b account_type_org),
)
permits_iff org account a b = ground (
  arith,
  same_org a b,
  eq_iff (get_workspace_type_name a account_type_account)
      (get_workspace_type_name b account_type_account),
  eq_iff (get_workspace_type_name b account_type_org) (get_workspace_type_name a account_type_org),
)
permits_iff account org a b = ground (
  arith,
  org-ne-account b a,
  eq_iff (get_workspace_type_name a account_type_account)
      (get_workspace_type_name b account_type_org),
)
permits_iff account account a b = ground (
  arith,
  same_org a b,
  eq_iff (get_workspace_type_name a account_type_account)
      (get_workspace_type_name b account_type_account),
  eq_iff (get_workspace_type_name b account_type_account)
      (get_workspace_type_name a account_type_account),
)
