-- ===== src/Operator/Admitted.antt =====
-- What the operator's settings of the webhook mean for the workspace types.
use account_operator.Base.{String, ◌≡◌, inl, inr, refl, sym, List, [], ◌∷◌, All, OneOf}
use account_operator.Base.Text.SplitLaws.{Lacks}
use account_operator.Meta.{Ref}
use account_operator.Config.{WebhooksConfig}
use account_operator.Platform.{Platform}
use account_operator.ClusteredName.{account}
use account_operator.Exec.{State}
use account_operator.Api.Account.{Account, account_type_org}
use account_operator.Api.Webhook.{validate_create}
use account_operator.Api.Webhook.Verdict.{IsAdmitted}
use account_operator.Operator.{account_validator}
use account_operator.Operator.Lists.{admitted_types}
use account_operator.Subroutines.Util.{get_workspace_type_name}
use account_operator.Subroutines.Util.Clashes.{dashless_injective}

OneOf-Lacks : (t : String) (ts : List String) → All (Lacks b'-') ts → OneOf t ts → Lacks b'-' t
OneOf-Lacks t [] h m = absurd m
OneOf-Lacks t (x ∷ ts) (h, _) (inl e) = rw (sym e) h
OneOf-Lacks t (x ∷ ts) (_, hs) (inr m) = OneOf-Lacks t ts hs m

module _ (P : Platform) (cfg : WebhooksConfig)
    (dashless : All (Lacks b'-') cfg.additional_account_types) where
  admitted-Lacks :
      (inst : Ref Account) (s : State P)
      → IsAdmitted (validate_create P (account_validator cfg) (account inst) s).0
      → Lacks b'-' inst.val.spec.type
  admitted-Lacks inst s h =
      OneOf-Lacks inst.val.spec.type (account_type_org ∷ cfg.additional_account_types)
        ((refl, (refl, (refl, tt))), dashless) (admitted_types P cfg inst s h)

  -- If no additional account type of the settings has a dash, two accounts whose creation has been
  -- admitted, with or without warnings, get a workspace type of the same name only if they belong to organizations of the same
  -- name and have the same type.
  pub admitted_apart :
      (x y : Ref Account) (s s' : State P) (org_x org_y : String)
      → IsAdmitted (validate_create P (account_validator cfg) (account x) s).0
      → IsAdmitted (validate_create P (account_validator cfg) (account y) s').0
      → get_workspace_type_name org_x x.val.spec.type
        ≡ get_workspace_type_name org_y y.val.spec.type
      → (org_x ≡ org_y) × (x.val.spec.type ≡ y.val.spec.type)
  admitted_apart x y s s' org_x org_y hx hy e =
      dashless_injective org_x org_y x.val.spec.type y.val.spec.type (admitted-Lacks x s hx)
        (admitted-Lacks y s' hy) e
