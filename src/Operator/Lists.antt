-- ===== src/Operator/Lists.antt =====
-- The operator's lists against what is written in its settings.
use account_operator.Base.{
  String, ◌≡◌, sym, ◌∙◌, ap, ◌≢◌, inl, inr, List, [], ◌∷◌, ◌++◌, map, All, OneOf, arith, eq_iff,
}
use mathlib.Core.List.{append-nil, append_assoc}
use account_operator.Base.Text.{trim_space}
use account_operator.Base.Text.SplitLaws.{Lacks, join, split-join}
use account_operator.Meta.{Ref}
use account_operator.Config.{WebhooksConfig}
use account_operator.Platform.{Platform}
use account_operator.ClusteredName.{account}
use account_operator.Exec.{State}
use account_operator.Api.Account.{Account, account_type_org}
use account_operator.Api.Webhook.{validate_create}
use account_operator.Api.Webhook.Verdict.{IsAdmitted, IsRefused, validate_create-Judges}
use account_operator.Operator.{parse_deny_list, append_types, account_validator}

-- Items without commas, written one behind the other with commas between them, are read back, each
-- without the white space around it.
pub parse_deny_list-join :
    (items : List String)
    → All (Lacks b',') items
    → join "," items ≢ ""
    → parse_deny_list (join "," items) ≡ map trim_space items
unfolding parse_deny_list
parse_deny_list-join items h filled =
    ground
      (arith, eq_iff (join "," items) "", split-join "," items (λ e. filled (ap (join ",") e)) h)

append_types_lem : (types : List String) (ts : List String) → append_types types ts ≡ types ++ ts
unfolding append_types
append_types_lem types [] = sym (append-nil types)
append_types_lem types (t ∷ ts) = append_types_lem (types ++ t ∷ []) ts ∙ rw append_assoc

-- An account that can be created is of type "org" or of one of the additional types.
pub admitted_types :
    (P : Platform) (cfg : WebhooksConfig) (inst : Ref Account) (s : State P)
    → IsAdmitted (validate_create P (account_validator cfg) (account inst) s).0
    → OneOf inst.val.spec.type (account_type_org ∷ cfg.additional_account_types)
unfolding account_validator
admitted_types P cfg inst s admitted =
    rw (append_types_lem (account_type_org ∷ []) cfg.additional_account_types) at
      (((validate_create-Judges P (account_validator cfg) inst s).admitted.0 admitted).type_allowed)

OneOf-map :
    (items : List String) (item : String)
    → OneOf item items
    → OneOf (trim_space item) (map trim_space items)
OneOf-map [] item m = absurd m
OneOf-map (x ∷ items) item (inl e) = inl (ap trim_space e)
OneOf-map (x ∷ items) item (inr m) = inr (OneOf-map items item m)

-- An organization whose name stands on the configured deny list, with white space around it or
-- not, is refused: its creation fails with an error.
pub denied_by_config :
    (P : Platform) (cfg : WebhooksConfig) (items : List String) (item : String) (inst : Ref Account)
    (s : State P)
    → All (Lacks b',') items
    → cfg.deny_list ≡ join "," items
    → cfg.deny_list ≢ ""
    → OneOf item items
    → inst.val.meta.name ≡ trim_space item
    → inst.val.spec.type ≡ account_type_org
    → IsRefused (validate_create P (account_validator cfg) (account inst) s).0
unfolding account_validator
denied_by_config P cfg items item inst s h written filled among name is_org =
    (validate_create-Judges P (account_validator cfg) inst s).refused.1 (λ a. elim a.name_allowed [
      | inl e ↦ e is_org
      | inr (_, free) ↦ free (
          rw (name, written, parse_deny_list-join items h (rw written at filled))
            (OneOf-map items item among))
    ])
