-- ===== src/Api/DeepCopy/Alloc/Copied.antt =====
-- What a copy is: an equal value, in memory of its own.
use account_operator.Base.{
  ℕ, suc, ◌≤◌, ◌<◌, ◌≡◌, ◌≢◌, refl, ap, Option, none, some, List, [], ◌∷◌, ◌++◌, map, All, arith,
}
use account_operator.Meta.{Ref}
use account_operator.Api.DeepCopy.Alloc.{Alloc, pure, new_copy, each}

-- The addresses rise from `n` on, without a repetition, and stay below `m`.
abbrev pub Fresh : ℕ → List ℕ → ℕ → Type 0
Fresh n [] m = n ≤ m
Fresh n (a ∷ xs) m = (n ≤ a) × Fresh (suc a) xs m

pub Fresh-append : (n m k : ℕ) (xs bs : List ℕ) → Fresh n xs m → Fresh m bs k → Fresh n (xs ++ bs) k
Fresh-append n m k [] [] h g = omega arith
Fresh-append n m k [] (b ∷ bs) h (g, gs) = (omega arith, gs)
Fresh-append n m k (a ∷ xs) bs (h, hs) g = (h, Fresh-append (suc a) m k xs bs hs g)

-- No address of the one list is in the other.
abbrev pub Apart : List ℕ → List ℕ → Type 0
Apart xs [] = Unit
Apart xs (b ∷ bs) = All (λ a. a ≢ b) xs × Apart xs bs

below-ne : (n b : ℕ) (xs : List ℕ) → n ≤ b → All (λ a. a < n) xs → All (λ a. a ≢ b) xs
below-ne n b [] h _ = tt
below-ne n b (a ∷ xs) h (p, ps) = (λ e. omega (arith, e), below-ne n b xs h ps)

pub Fresh-Apart :
    (n i m : ℕ) (xs bs : List ℕ) → n ≤ i → All (λ a. a < n) xs → Fresh i bs m → Apart xs bs
Fresh-Apart n i m xs [] h old f = tt
Fresh-Apart n i m xs (b ∷ bs) h old (f, fs) =
    (below-ne n b xs (omega arith) old, Fresh-Apart n (suc b) m xs bs (omega arith) old fs)

-- A type in memory: what it stands for, the addresses that it holds, and its `DeepCopyInto`.
pub record Copying (A V : Type 0) : Type 1 where
  pub into : A → Alloc A
  pub value : A → V
  pub addresses : A → List ℕ
  pub IsValid : A → Type 0

module _ {A V : Type 0} (c : Copying A V) where
  -- The copy has the same value, and its addresses are those that were allocated for it.
  pub record Copied (x : A) (n : ℕ) : Type 0 where
    pub same : c.value (c.into x n).0 ≡ c.value x
    pub fresh : Fresh n (c.addresses (c.into x n).0) (c.into x n).1

  abbrev pub Lawful : Type 0
  Lawful = (x : A) (n : ℕ) → c.IsValid x → Copied x n

-- A value that holds no address: `*out = *in`.
abbrev pub plain : (A : Type 0) → Copying A A
plain A = record { into = pure; value = λ x. x; addresses = λ x. []; IsValid = λ x. Unit }

pub plain-Lawful : (A : Type 0) → Lawful (plain A)
plain-Lawful A x n h = record { same = refl; fresh = omega arith }

module _ {A V : Type 0} (c : Copying A V) where
  abbrev pub value_of : Option (Ref A) → Option V
  value_of none = none
  value_of (some r) = some (c.value r.val)

  abbrev pub addresses_of : Option (Ref A) → List ℕ
  addresses_of none = []
  addresses_of (some r) = r.ptr ∷ c.addresses r.val

  abbrev pub IsValidOf : Option (Ref A) → Type 0
  IsValidOf none = Unit
  IsValidOf (some r) = c.IsValid r.val

  -- A pointer, which may be nil.
  abbrev pub pointer : Copying (Option (Ref A)) (Option V)
  pointer = record {
    into = new_copy c.into;
    value = value_of;
    addresses = addresses_of;
    IsValid = IsValidOf;
  }

  pub pointer-Lawful : Lawful c → Lawful pointer
  pointer-Lawful L none n h = record { same = refl; fresh = omega arith }
  pointer-Lawful L (some r) n h =
      let k = L r.val (suc n) h in record { same = ap some k.same; fresh = (omega arith, k.fresh) }

  abbrev pub addresses_each : List A → List ℕ
  addresses_each [] = []
  addresses_each (x ∷ xs) = c.addresses x ++ addresses_each xs

  -- The elements of a slice.
  abbrev pub elements : Copying (List A) (List V)
  elements = record {
    into = each c.into;
    value = map c.value;
    addresses = addresses_each;
    IsValid = All c.IsValid;
  }

  pub elements-Lawful : Lawful c → Lawful elements
  unfolding each
  elements-Lawful L [] n h = record { same = refl; fresh = omega arith }
  elements-Lawful L (x ∷ xs) n (h, hs) =
      let k = L x n h in
      let ks = elements-Lawful L xs (c.into x n).1 hs in
      record {
        same = cc (k.same, ks.same);
        fresh = Fresh-append n _ _ (c.addresses (c.into x n).0) _ k.fresh ks.fresh;
      }

-- A slice, which may be nil.
abbrev pub slice : {A V : Type 0} → Copying A V → Copying (Option (Ref (List A))) (Option (List V))
slice c = pointer (elements c)

pub slice-Lawful : {A V : Type 0} (c : Copying A V) → Lawful c → Lawful (slice c)
slice-Lawful c L = pointer-Lawful (elements c) (elements-Lawful c L)

-- A pointer to a value that holds no address, or nil.
abbrev pub plain_pointer : (A : Type 0) → Copying (Option (Ref A)) (Option A)
plain_pointer A = record {
  into = new_copy pure;
  value = value_of (plain A);
  addresses = addresses_of (plain A);
  IsValid = λ x. Unit;
}

pub plain_pointer-Lawful : (A : Type 0) → Lawful (plain_pointer A)
plain_pointer-Lawful A none n h = record { same = refl; fresh = omega arith }
plain_pointer-Lawful A (some r) n h = record { same = refl; fresh = omega arith }
