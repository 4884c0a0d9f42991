-- ===== src/Base/Text/SplitLaws.antt =====
-- The parts of a split text: none holds the separator, and joined they are the text.
use Prim.Native.Nat.{ℕ}
use Prim.Native.Char.{Char, code}
use Prim.Native.String.{String, ◌++◌ as ◌<>◌}
use mathlib.Core.Path.{◌≡◌, refl, sym, ◌∙◌, ap}
use mathlib.Core.Logic.{◌≢◌, inl, inr}
use mathlib.Core.Bool.{false}
use mathlib.Core.List.{List, [], ◌∷◌, ◌++◌}
use native.Mathlib.Omega.{arith}
use text.Mathlib.TextEquality.{Char-path}
use text.Mathlib.TextLemmas.{nil-append, cons-append, append_assoc}
use account_operator.Base.Tests.{eqb, Bool-cases}
use account_operator.Base.Lists.{All, last}
use account_operator.Base.Text.Split.{split, onto_first}

-- The text does not hold the character.
abbrev pub Lacks : ℕ → String → Type 0
Lacks sep String.[] = Unit
Lacks sep (String.◌∷◌ c s) = (eqb (code c) sep ≡ false) × Lacks sep s

All-onto_first :
    (sep : ℕ) (c : Char) (ps : List String)
    → eqb (code c) sep ≡ false
    → All (Lacks sep) ps
    → All (Lacks sep) (onto_first c ps)
All-onto_first sep c [] e _ = ((e, tt), tt)
All-onto_first sep c (p ∷ ps) e (h, hs) = ((e, h), hs)

pub split-Lacks : (sep : ℕ) (s : String) → All (Lacks sep) (split sep s)
unfolding split
split-Lacks sep String.[] = (tt, tt)
split-Lacks sep (String.◌∷◌ c s) = elim (Bool-cases (eqb (code c) sep)) [
  | inl e ↦ rw e (tt, split-Lacks sep s)
  | inr e ↦ rw e (All-onto_first sep c (split sep s) e (split-Lacks sep s))
]

pub last-Lacks : (sep : ℕ) (ps : List String) → All (Lacks sep) ps → Lacks sep (last ps)
last-Lacks sep [] _ = tt
last-Lacks sep (p ∷ []) (h, _) = h
last-Lacks sep (p ∷ q ∷ ps) (_, h) = last-Lacks sep (q ∷ ps) h

-- A text without the separator is its only part.
pub split_of_Lacks : (sep : ℕ) (s : String) → Lacks sep s → split sep s ≡ s ∷ []
unfolding split
split_of_Lacks sep String.[] _ = refl
split_of_Lacks sep (String.◌∷◌ c s) (e, h) = rw (e, split_of_Lacks sep s h)

onto_first-append :
    (c : Char) (ps qs : List String) → ps ≢ [] → onto_first c (ps ++ qs) ≡ onto_first c ps ++ qs
onto_first-append c [] qs h = absurd (h refl)
onto_first-append c (p ∷ ps) qs h = refl

onto_first-ne-nil : (c : Char) (ps : List String) → onto_first c ps ≢ []
onto_first-ne-nil c [] = cc
onto_first-ne-nil c (p ∷ ps) = cc

pub split-ne-nil : (sep : ℕ) (s : String) → split sep s ≢ []
unfolding split
split-ne-nil sep String.[] = cc
split-ne-nil sep (String.◌∷◌ c s) = ground (arith, onto_first-ne-nil c (split sep s))

-- Splitting at a separator inside the text.
pub split-append :
    (d : Char) (a b : String)
    → split (code d) (a <> String.◌∷◌ d b) ≡ split (code d) a ++ split (code d) b
unfolding split
split-append d String.[] b = rw nil-append (ground arith)
split-append d (String.◌∷◌ c a) b =
    rw (cons-append, split-append d a b)
      (ground
        (arith, onto_first-append c (split (code d) a) (split (code d) b), split-ne-nil (code d) a))

module _ (d : Char) where
  -- `strings.Join`
  abbrev pub join : List String → String
  join [] = ""
  join (p ∷ []) = p
  join (p ∷ q ∷ ps) = p <> String.◌∷◌ d (join (q ∷ ps))

  join-onto_first :
      (c : Char) (ps : List String) → ps ≢ [] → join (onto_first c ps) ≡ String.◌∷◌ c (join ps)
  join-onto_first c [] h = absurd (h refl)
  join-onto_first c (p ∷ []) h = refl
  join-onto_first c (p ∷ q ∷ ps) h = cons-append c p _

  join-cons : (ps : List String) → ps ≢ [] → join ("" ∷ ps) ≡ String.◌∷◌ d (join ps)
  join-cons [] h = absurd (h refl)
  join-cons (p ∷ ps) h = nil-append _

  pub join-split : (s : String) → join (split (code d) s) ≡ s
  unfolding split
  join-split String.[] = refl
  join-split (String.◌∷◌ c s) = elim (Bool-cases (eqb (code c) (code d))) [
    | inl e ↦
        rw (e, join-cons _ (split-ne-nil (code d) s), join-split s)
          (ap (λ x. String.◌∷◌ x s) (Char-path d c (ground arith)))
    | inr e ↦ rw (e, join-onto_first c _ (split-ne-nil (code d) s), join-split s)
  ]

  -- All parts but the last.
  abbrev pub init : List String → List String
  init [] = []
  init (p ∷ []) = []
  init (p ∷ q ∷ ps) = p ∷ init (q ∷ ps)

  pub join-init-last :
      (p q : String) (ps : List String)
      → join (p ∷ q ∷ ps) ≡ join (init (p ∷ q ∷ ps)) <> String.◌∷◌ d (last (p ∷ q ∷ ps))
  join-init-last p q [] = refl
  join-init-last p q (r ∷ ps) =
      rw (join-init-last q r ps) (sym (append_assoc p _ _ ∙ ap (λ x. p <> x) (cons-append d _ _)))

-- `strings.Split` undoes `strings.Join` on parts that lack the separator.
pub split-join :
    (d : Char) (ps : List String)
    → ps ≢ []
    → All (Lacks (code d)) ps
    → split (code d) (join d ps) ≡ ps
split-join d [] h _ = absurd (h refl)
split-join d (p ∷ []) h (k, _) = split_of_Lacks (code d) p k
split-join d (p ∷ q ∷ ps) h (k, ks) =
    rw (
      split-append d p (join d (q ∷ ps)),
      split_of_Lacks (code d) p k,
      split-join d (q ∷ ps) (cc) ks,
    )
