-- ===== src/Api/DeepCopy/Alloc.antt =====
-- Copying with allocation: `new`, and copies of what a pointer, a slice or a map refers to.
pub mod Copied
use account_operator.Base.{ℕ, suc, String, Option, none, some, List, [], ◌∷◌}
use account_operator.Base.Dict.{Dict, copy}
use account_operator.Meta.{Ref}

-- The next unused address is threaded through.
abbrev pub Alloc : Type 0 → Type 0
Alloc A = ℕ → A × ℕ

module _ {A : Type 0} where
  abbrev pub pure : A → Alloc A
  pure a n = (a, n)

  infixl 5 ◌>>=◌
  abbrev pub ◌>>=◌ : {B : Type 0} → Alloc A → (A → Alloc B) → Alloc B
  ◌>>=◌ m f n = let (a, n') = m n in f a n'

-- `new` and `make` return an address.
abbrev pub allocate : Alloc ℕ
allocate n = (n, suc n)

module _ {A : Type 0} (into : A → Alloc A) where
  -- `out := new(A); in.DeepCopyInto(out)`, or nil for nil.
  abbrev pub new_copy : Option (Ref A) → Alloc (Option (Ref A))
  new_copy none = pure none
  new_copy (some r) = do out ← allocate; v ← into r.val; pure (some (record { ptr = out; val = v }))

  -- `for i := range *in { (*in)[i].DeepCopyInto(&(*out)[i]) }`
  unfoldable pub each : List A → Alloc (List A)
  each [] = pure []
  each (x ∷ xs) = do y ← into x; ys ← each xs; pure (y ∷ ys)

-- `for key, val := range *in { (*out)[key] = val }` on a new map.
abbrev pub each_entry : {V : Type 0} → Dict V → Alloc (Dict V)
each_entry m = pure (copy [] m)
