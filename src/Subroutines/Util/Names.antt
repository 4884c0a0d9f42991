-- ===== src/Subroutines/Util/Names.antt =====
-- Which accounts get the same workspace type name.
use Prim.Native.Nat.{ℕ}
use Prim.Native.Char.{code}
use Prim.Native.String.{String, ◌++◌ as ◌<>◌}
use text.Mathlib.TextLemmas.{nil-append, cons-append, append_cancel_right}
use account_operator.Base.{◌≡◌, refl, sym, ◌∙◌, ap, ◌≢◌, ◌⊎◌, inl, inr, Option, none, some, arith}
use account_operator.Api.Account.{AccountType, account_type_org, account_type_account}
use account_operator.Subroutines.Util.{get_workspace_type_name}

-- The code of the last character.
abbrev last_code : String → Option ℕ
last_code String.[] = none
last_code (String.◌∷◌ c String.[]) = some (code c)
last_code (String.◌∷◌ c (String.◌∷◌ d s)) = last_code (String.◌∷◌ d s)

last_code-append : (s t : String) → t ≢ "" → last_code (s <> t) ≡ last_code t
last_code-append String.[] t h = ap last_code (nil-append t)
last_code-append (String.◌∷◌ c String.[]) String.[] h = absurd (h refl)
last_code-append (String.◌∷◌ c String.[]) (String.◌∷◌ d t) h = rw (cons-append, nil-append)
last_code-append (String.◌∷◌ c (String.◌∷◌ d s)) t h =
    rw (cons-append, cons-append) (rw cons-append at (last_code-append (String.◌∷◌ d s) t h))

-- Names of organizations and of accounts end differently.
pub org-ne-account :
    (a b : String)
    → get_workspace_type_name a account_type_org ≢ get_workspace_type_name b account_type_account
unfolding get_workspace_type_name
org-ne-account a b h = ground (
  arith,
  ap last_code h,
  last_code-append a ("-" <> account_type_org) (cc),
  last_code-append b ("-" <> account_type_account) (cc),
)

-- The two types of account that the operator itself knows.
abbrev pub IsKnown : AccountType → Type 0
IsKnown t = (t ≡ account_type_org) ⊎ (t ≡ account_type_account)

-- Among the types "org" and "account", the workspace type name determines both the account name
-- and the type.
pub get_workspace_type_name_injective :
    (a b : String) (t u : AccountType)
    → IsKnown t
    → IsKnown u
    → get_workspace_type_name a t ≡ get_workspace_type_name b u
    → (a ≡ b) × (t ≡ u)
unfolding get_workspace_type_name
get_workspace_type_name_injective a b t u (inl p) (inl q) h =
    (append_cancel_right a b ("-" <> t) (h ∙ rw (q, p)), p ∙ sym q)
get_workspace_type_name_injective a b t u (inr p) (inr q) h =
    (append_cancel_right a b ("-" <> t) (h ∙ rw (q, p)), p ∙ sym q)
get_workspace_type_name_injective a b t u (inl p) (inr q) h =
    absurd (org-ne-account a b (rw (p, q) at h))
get_workspace_type_name_injective a b t u (inr p) (inl q) h =
    absurd (org-ne-account b a (sym (rw (p, q) at h)))
