-- ===== src/Subroutines/Util/Clashes.antt =====
-- Which names and types of accounts give the same workspace type name, whatever the types.
use Prim.Native.String.{String, ◌++◌ as ◌<>◌}
use text.Mathlib.TextLemmas.{nil-append, cons-append, append_assoc, append_cancel_right}
use account_operator.Base.{◌≡◌, refl, sym, ◌∙◌, ap, ◌⊎◌, ◌↔◌, inl, inr, List, [], ◌∷◌, ◌++◌, last}
use account_operator.Base.Text.{split}
use account_operator.Base.Text.SplitLaws
use account_operator.Base.Text.SplitLaws.{Lacks}
use account_operator.Api.Account.{AccountType}
use account_operator.Subroutines.Util.{get_workspace_type_name}

dash-append : (s : String) → "-" <> s ≡ String.◌∷◌ "-" s
dash-append s = cons-append "-" "" s ∙ ap (String.◌∷◌ "-") (nil-append s)

last-snoc : (xs : List String) (p : String) → last (xs ++ (p ∷ [])) ≡ p
last-snoc [] p = refl
last-snoc (x ∷ []) p = refl
last-snoc (x ∷ y ∷ xs) p = last-snoc (y ∷ xs) p

-- A type without a dash is what stands behind the last dash of the name.
last-split-get_workspace_type_name :
    (a : String) (t : AccountType)
    → Lacks b'-' t
    → last (split b'-' (get_workspace_type_name a t)) ≡ t
unfolding get_workspace_type_name
last-split-get_workspace_type_name a t h =
    rw (dash-append t, SplitLaws.split-append "-" a, SplitLaws.split_of_Lacks b'-' t h)
      (last-snoc (split b'-' a) t)

pub dashless_injective :
    (a b : String) (t u : AccountType)
    → Lacks b'-' t
    → Lacks b'-' u
    → get_workspace_type_name a t ≡ get_workspace_type_name b u
    → (a ≡ b) × (t ≡ u)
unfolding get_workspace_type_name
dashless_injective a b t u h k e =
    let same : t ≡ u =
      sym (last-split-get_workspace_type_name a t h)
      ∙ ap (λ s. last (split b'-' s)) e
      ∙ last-split-get_workspace_type_name b u k in
    (append_cancel_right a b ("-" <> t) (e ∙ rw same refl), same)

-- The type reads p-v, and v has no dash.
record EndsIn (u p v : String) : Type 0 where
  whole : u ≡ p <> ("-" <> v)
  dashless : Lacks b'-' v

last_part :
    (u : String) (ps : List String)
    → split b'-' u ≡ ps
    → Lacks b'-' u ⊎ ((p : String) × (v : String) × EndsIn u p v)
last_part u [] e = absurd (SplitLaws.split-ne-nil b'-' u e)
last_part u (x ∷ []) e =
    let k : u ≡ x = sym (SplitLaws.join-split "-" u) ∙ ap (SplitLaws.join "-") e in
    inl (rw k ((rw e at (SplitLaws.split-Lacks b'-' u)).0))
last_part u (x ∷ y ∷ ps) e = inr (
  SplitLaws.join "-" (SplitLaws.init "-" (x ∷ y ∷ ps)),
  last (x ∷ y ∷ ps),
  record {
    whole =
        sym (SplitLaws.join-split "-" u)
        ∙ ap (SplitLaws.join "-") e
        ∙ rw (dash-append, SplitLaws.join-init-last "-" x y ps);
    dashless = SplitLaws.last-Lacks b'-' (x ∷ y ∷ ps) (rw e at (SplitLaws.split-Lacks b'-' u));
  },
)

regroup :
    (b p v : String)
    → get_workspace_type_name b (p <> ("-" <> v)) ≡ get_workspace_type_name (b <> ("-" <> p)) v
unfolding get_workspace_type_name
regroup b p v = simp append_assoc

-- Where the type `t` has no dash, the account `a` of this type gets the workspace type name of the
-- account `b` of a type `u` exactly if they have the same name and type, or the type `u` reads p-t
-- and the name `a` reads b-p.
pub get_workspace_type_name-eq_iff :
    (a b : String) (t u : AccountType)
    → Lacks b'-' t
    → (get_workspace_type_name a t ≡ get_workspace_type_name b u)
      ↔ (((a ≡ b) × (t ≡ u)) ⊎ ((p : String) × (u ≡ p <> ("-" <> t)) × (a ≡ b <> ("-" <> p))))
get_workspace_type_name-eq_iff a b t u h = (
  λ e. elim (last_part u (split b'-' u) refl) [
    | inl k ↦ inl (dashless_injective a b t u h k e)
    | inr (p, v, w) ↦
        let (same, v') =
          dashless_injective a (b <> ("-" <> p)) t v h w.dashless
            (e ∙ ap (get_workspace_type_name b) w.whole ∙ regroup b p v) in
        inr (p, rw v' w.whole, same)
  ],
  λ c. elim c [ inl (x, y) ↦ rw (x, y) refl | inr (p, x, y) ↦ rw (x, y) (sym (regroup b p t)) ],
)
