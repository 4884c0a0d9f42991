-- ===== src/Base/Lists.antt =====
-- Lists over the native numbers, and `slices.Contains`.
use Prim.Native.Nat.{ℕ, zero, suc, ◌+◌, ◌-◌}
use Prim.Native.String.{String}
use mathlib.Core.Path.{◌≡◌, refl}
use mathlib.Core.Logic.{◌≢◌, ◌⊎◌, ◌↔◌}
use mathlib.Core.Bool.{Bool, true, false, not, ◌&&◌, ◌||◌}
use mathlib.Core.Option.{Option, none, some}
use mathlib.Core.List.{List, [], ◌∷◌, ◌++◌}
use native.Mathlib.Omega.{arith}
use text.Mathlib.Text.{◌==◌}
use text.Mathlib.TextEquality.{eq_iff}

module _ {ℓ} {A : Type ℓ} where
  abbrev pub length : List A → ℕ
  length [] = 0
  length (x ∷ xs) = suc (length xs)

  -- `l[i]`, or `none` where the index is out of range.
  abbrev pub get_elem? : List A → ℕ → Option A
  get_elem? [] i = none
  get_elem? (x ∷ xs) zero = some x
  get_elem? (x ∷ xs) (suc i) = get_elem? xs i

  pub length-append : (xs ys : List A) → length (xs ++ ys) ≡ length xs + length ys
  length-append [] ys = omega arith
  length-append (x ∷ xs) ys = omega (arith, length-append xs ys)

-- The last element of a list that is not empty.
abbrev pub last : List String → String
last [] = ""
last (x ∷ []) = x
last (x ∷ y ∷ l) = last (y ∷ l)

-- The index of the last element is in range.
pub get_elem?-last : (l : List String) → l ≢ [] → get_elem? l (length l - 1) ≡ some (last l)
get_elem?-last [] h = absurd (h refl)
get_elem?-last (x ∷ []) h = refl
get_elem?-last (x ∷ y ∷ l) h =
    let e : length (x ∷ y ∷ l) - 1 ≡ suc (length (y ∷ l) - 1) = omega arith in
    rw e (get_elem?-last (y ∷ l) (λ p. cc))

module _ {ℓ κ} {A : Type ℓ} (P : A → Type κ) where
  abbrev pub All : List A → Type κ
  All [] = Unit
  All (x ∷ xs) = P x × All xs

-- `slices.Contains` of Go's standard library, at `[]string`.
abbrev pub contains : List String → String → Bool
contains [] a = false
contains (x ∷ xs) a = x == a || contains xs a

-- No text stands in the list twice.
abbrev pub distinct : List String → Bool
distinct [] = true
distinct (x ∷ xs) = not (contains xs x) && distinct xs

-- Membership as a proposition by recursion.
abbrev pub OneOf : String → List String → Type 0
OneOf a [] = ⊥
OneOf a (x ∷ xs) = (x ≡ a) ⊎ OneOf a xs

pub contains_iff : (xs : List String) (a : String) → (contains xs a ≡ true) ↔ OneOf a xs
contains_iff [] a = (λ h. cc, λ h. absurd h)
contains_iff (x ∷ xs) a = (
  λ h. ground (arith, (contains_iff xs a).0, eq_iff x a),
  λ h. ground (arith, (contains_iff xs a).1, eq_iff x a),
)
