-- ===== src/Base/Dict.antt =====
-- Go's `map[string]string` as an association list without repeated keys, and `maps.Copy`.
use Prim.Native.String.{String}
use mathlib.Core.Path.{◌≡◌, refl}
use mathlib.Core.Option.{Option, none, some}
use mathlib.Core.Bool.{false}
use mathlib.Core.List.{List, [], ◌∷◌}
use native.Mathlib.Omega.{arith}
use text.Mathlib.Text.{◌==◌}
use text.Mathlib.TextEquality.{eq_iff}
use text.Mathlib.TextPositions.{eq_refl}
use account_operator.Base.Tests.{if◌then◌else◌}

abbrev pub Dict {ℓ} : Type ℓ → Type ℓ
Dict V = List (String × V)

module _ {ℓ} {V : Type ℓ} where
  unfoldable pub lookup : Dict V → String → Option V
  lookup [] k = none
  lookup (x ∷ m) k = let below = lookup m k in if x.0 == k then some x.1 else below

  unfoldable delete : Dict V → String → Dict V
  delete [] k = []
  delete (x ∷ m) k = let below = delete m k in if x.0 == k then below else x ∷ below

  unfoldable pub assign : Dict V → String → V → Dict V
  unfolding delete
  assign m k v = (k, v) ∷ delete m k

  -- `maps.Copy(dst, src)`: every entry of `src` is put into `dst`.
  unfoldable pub copy : Dict V → Dict V → Dict V
  copy dst [] = dst
  copy dst ((k, v) ∷ src) = copy (assign dst k v) src

  lookup-delete :
      (m : Dict V) (k l : String) → (k == l) ≡ false → lookup (delete m k) l ≡ lookup m l
  unfolding lookup delete
  lookup-delete [] k l h = refl
  lookup-delete (x ∷ m) k l h =
      ground (arith, eq_iff k l, eq_iff x.0 k, eq_iff x.0 l, lookup-delete m k l h)

  pub lookup-assign :
      (m : Dict V) (k l : String) (v : V)
      → lookup (assign m k v) l ≡ (if k == l then some v else lookup m l)
  unfolding lookup assign
  lookup-assign m k l v = ground (arith, lookup-delete m k l)

  delete_idem : (m : Dict V) (k : String) → delete (delete m k) k ≡ delete m k
  unfolding delete
  delete_idem [] k = refl
  delete_idem (x ∷ m) k = ground (arith, delete_idem m k)

  -- The same assignment again changes nothing.
  pub assign_idem : (m : Dict V) (k : String) (v : V) → assign (assign m k v) k v ≡ assign m k v
  unfolding assign delete
  assign_idem m k v = ground (arith, eq_refl k, delete_idem m k)

  -- No key stands twice.
  abbrev pub IsMap : Dict V → Type ℓ
  IsMap [] = Unit
  IsMap ((k, v) ∷ m) = (lookup m k ≡ none) × IsMap m

  -- What `maps.Copy` leaves: the entries of `src` over those of `dst`.
  abbrev pub over : Option V → Option V → Option V
  over (some v) below = some v
  over none below = below

  pub lookup-copy :
      (src dst : Dict V) (l : String)
      → IsMap src
      → lookup (copy dst src) l ≡ over (lookup src l) (lookup dst l)
  unfolding lookup copy
  lookup-copy [] dst l h = refl
  lookup-copy ((k, v) ∷ src) dst l (h, hs) =
      ground (arith, lookup-copy src (assign dst k v) l hs, lookup-assign dst k l v, eq_iff k l)
