-- ===== src/Platform/Memory/Shelf.antt =====
-- A list of objects, each with its cluster, as the state behind a client.
use account_operator.Base.{
  String, Bool, true, false, ◌≡◌, refl, ◌≢◌, ◌⊎◌, inl, inr, ◌==◌, ◌&&◌, List, [], ◌∷◌, arith,
  eq_iff, eq_refl, if◌then◌else◌, String-cases, Bool-cases,
}
use account_operator.Meta.{ObjectMeta}
use account_operator.Platform.{Client, OperationResult, Result, ok, err, Result-cases}
use account_operator.Platform.Laws.{ClientLaws, Stored, IsGoing, Elsewhere}

pub data MemoryError : Type 0 where
  not_found no_match refused : MemoryError

abbrev pub is_not_found : MemoryError → Bool
is_not_found not_found = true
is_not_found _ = false

abbrev pub is_no_match : MemoryError → Bool
is_no_match no_match = true
is_no_match _ = false

module _ {A : Type 0} (meta : A → ObjectMeta) where
  abbrev pub Objects : Type 0
  Objects = List (String × A)

  abbrev is_at : String → String → String × A → Bool
  is_at c n (c', a) = c' == c && (meta a).name == n

  unfoldable pub get : String → String → Objects → Result MemoryError A
  get c n [] = err not_found
  get c n (x ∷ xs) = if is_at c n x then ok x.1 else get c n xs

  unfoldable pub without : String → String → Objects → Objects
  without c n [] = []
  without c n (x ∷ xs) = let rest = without c n xs in if is_at c n x then rest else x ∷ rest

  name-get : (c n : String) (xs : Objects) {a : A} → get c n xs ≡ ok a → (meta a).name ≡ n
  unfolding get
  name-get c n [] h = cc
  name-get c n ((c', b) ∷ xs) {a} h = elim (Bool-cases (is_at c n (c', b))) [
    | inl e ↦ ground (arith, eq_iff (meta b).name n)
    | inr e ↦ name-get c n xs (rw (e, get) at h)
  ]

  get-without : (c n : String) (xs : Objects) → get c n (without c n xs) ≡ err not_found
  unfolding get without
  get-without c n [] = refl
  get-without c n ((c', b) ∷ xs) = ground (arith, get-without c n xs)

  get-without_ne :
      (c n c' n' : String) (xs : Objects)
      → (c ≢ c') ⊎ (n ≢ n')
      → get c' n' (without c n xs) ≡ get c' n' xs
  unfolding get without
  get-without_ne c n c' n' [] h = refl
  get-without_ne c n c' n' ((d, b) ∷ xs) h = ground (
    arith,
    get-without_ne c n c' n' xs h,
    eq_iff d c,
    eq_iff d c',
    eq_iff (meta b).name n,
    eq_iff (meta b).name n',
  )

  -- The object that a write starts from, and the result that it reports.
  unfoldable pub start_of : String → A → Objects → A × OperationResult
  start_of c a xs = elim (get c (meta a).name xs) [ ok x ↦ (x, "updated") | err _ ↦ (a, "created") ]

  -- A mutation that renames the object is refused.
  unfoldable pub save :
      String → A → A → OperationResult → Objects → Result MemoryError OperationResult × Objects
  save c a b r xs =
      if (meta b).name == (meta a).name
      then (ok r, (c, b) ∷ without c (meta a).name xs)
      else (err refused, xs)

  unfoldable pub write :
      String
      → A
      → (A → Result MemoryError A)
      → Objects
      → Result MemoryError OperationResult × Objects
  write c a f xs =
      let (x, r) = start_of c a xs in elim (f x) [ err e ↦ (err e, xs) | ok b ↦ save c a b r xs ]

  unfoldable pub remove : String → String → Objects → Result MemoryError (Unit {0}) × Objects
  remove c n xs = elim (get c n xs) [ err e ↦ (err e, xs) | ok _ ↦ (ok tt, without c n xs) ]

  get_error : (c n : String) (xs : Objects) {e : MemoryError} → get c n xs ≡ err e → e ≡ not_found
  unfolding get
  get_error c n [] h = ground arith
  get_error c n (x ∷ xs) {e} h = elim (Bool-cases (is_at c n x)) [
    | inl at ↦ ground arith
    | inr at ↦ get_error c n xs (rw (at, get) at h)
  ]

  abbrev pub client : Client Objects MemoryError String A
  client = record { get = get; delete = remove; create_or_update = write; create_or_patch = write }

  get-save :
      (c : String) (a b : A) (r : OperationResult) (xs : Objects) {q : OperationResult}
      → (save c a b r xs).0 ≡ ok q
      → get c (meta a).name (save c a b r xs).1 ≡ ok b
  unfolding save get
  get-save c a b r xs h = ground (arith, eq_refl c)

  start_of-ok :
      (c : String) (a : A) (xs : Objects) {x : A}
      → get c (meta a).name xs ≡ ok x
      → start_of c a xs ≡ (x, "updated")
  unfolding start_of
  start_of-ok c a xs e = rw (e, start_of) refl

  start_of-err :
      (c : String) (a : A) (xs : Objects) {e : MemoryError}
      → get c (meta a).name xs ≡ err e
      → start_of c a xs ≡ (a, "created")
  unfolding start_of
  start_of-err c a xs e = rw (e, start_of) refl

  -- A write whose mutation succeeds saves what it makes.
  write-eq-save :
      (c : String) (a : A) (f : A → Result MemoryError A) (xs : Objects) {x b : A}
      {r : OperationResult}
      → start_of c a xs ≡ (x, r)
      → f x ≡ ok b
      → write c a f xs ≡ save c a b r xs
  unfolding write
  write-eq-save c a f xs {x} {b} {r} e k = ground arith

  write_fails :
      (c : String) (a : A) (f : A → Result MemoryError A) (xs : Objects) {x : A}
      {r : OperationResult} {y : MemoryError}
      → start_of c a xs ≡ (x, r)
      → f x ≡ err y
      → (write c a f xs).0 ≡ err y
  unfolding write
  write_fails c a f xs e k = rw (e, write, k) refl

  get_of_save :
      (c : String) (a b : A) (f : A → Result MemoryError A) (r : OperationResult) (xs : Objects)
      {q : OperationResult}
      → write c a f xs ≡ save c a b r xs
      → (write c a f xs).0 ≡ ok q
      → get c (meta a).name (write c a f xs).1 ≡ ok b
  get_of_save c a b f r xs w h = rw w (get-save c a b r xs (rw w at h))

  get-write :
      (c : String) (a : A) (f : A → Result MemoryError A) (xs : Objects) {r : OperationResult}
      → (write c a f xs).0 ≡ ok r
      → Stored meta is_not_found client c a f xs (write c a f xs).1
  get-write c a f xs h = elim (Result-cases (get c (meta a).name xs)) [
    | inl (x, e) ↦
        let at = start_of-ok c a xs e in
        elim (Result-cases (f x)) [
          | inr (y, e2) ↦ absurd (ground (arith, write_fails c a f xs at e2))
          | inl (b, e2) ↦ record {
            start = x;
            stored = b;
            starts = inl e;
            mutated = e2;
            read = get_of_save c a b f _ xs (write-eq-save c a f xs at e2) h;
          }
        ]
    | inr (y, e) ↦
        let at = start_of-err c a xs e in
        elim (Result-cases (f a)) [
          | inr (z, e2) ↦ absurd (ground (arith, write_fails c a f xs at e2))
          | inl (b, e2) ↦ record {
            start = a;
            stored = b;
            starts = inr (y, e, rw (get_error c _ xs e) refl, refl);
            mutated = e2;
            read = get_of_save c a b f _ xs (write-eq-save c a f xs at e2) h;
          }
        ]
  ]

  save-Elsewhere :
      (c : String) (a b : A) (r : OperationResult) (xs : Objects)
      → Elsewhere meta is_not_found client c (meta a).name xs (save c a b r xs).1
  unfolding save get
  save-Elsewhere c a b r xs c' n' = elim (String-cases c c') [
    | inl same ↦ elim (String-cases (meta a).name n') [
      | inl same_name ↦ inl (same, same_name)
      | inr e ↦ inr (
          ground (
            arith,
            get-without_ne c (meta a).name c' n' xs (inr (λ p. cc (e, p, eq_refl n'))),
            eq_iff (meta b).name (meta a).name,
            eq_iff (meta b).name n',
            eq_iff (meta a).name n',
          ))
    ]
    | inr e ↦
        inr (
          ground
            (arith, get-without_ne c (meta a).name c' n' xs (inl (λ p. cc (e, p, eq_refl c')))))
  ]

  write-Elsewhere :
      (c : String) (a : A) (f : A → Result MemoryError A) (xs : Objects)
      → Elsewhere meta is_not_found client c (meta a).name xs (write c a f xs).1
  unfolding write
  write-Elsewhere c a f xs c' n' = elim (Result-cases (f (start_of c a xs).0)) [
    | inr (y, e) ↦ inr (rw (e, write) refl)
    | inl (b, e) ↦ rw (e, write) (save-Elsewhere c a b (start_of c a xs).1 xs c' n')
  ]

  remove-Elsewhere :
      (c n : String) (xs : Objects) → Elsewhere meta is_not_found client c n xs (remove c n xs).1
  unfolding remove
  remove-Elsewhere c n xs c' n' = elim (Result-cases (get c n xs)) [
    | inr (y, e) ↦ inr (rw (e, remove) refl)
    | inl (b, e) ↦ elim (String-cases c c') [
      | inl same ↦ elim (String-cases n n') [
        | inl same_name ↦ inl (same, same_name)
        | inr d ↦
            inr (rw (e, remove) (get-without_ne c n c' n' xs (inr (λ p. cc (d, p, eq_refl n')))))
      ]
      | inr d ↦
          inr (rw (e, remove) (get-without_ne c n c' n' xs (inl (λ p. cc (d, p, eq_refl c')))))
    ]
  ]

  get-remove :
      (c n : String) (xs : Objects) → IsGoing meta is_not_found client (get c n (remove c n xs).1)
  unfolding remove
  get-remove c n xs = elim (Result-cases (get c n xs)) [
    | inr (y, e) ↦ rw (e, remove, e) (rw (get_error c n xs e) refl)
    | inl (b, e) ↦ rw (e, remove, get-without c n xs) refl
  ]

  pub client-ClientLaws : ClientLaws meta is_not_found client
  client-ClientLaws = record {
    name-get = name-get;
    get-update = get-write;
    get-patch = get-write;
    get-update_elsewhere = write-Elsewhere;
    get-patch_elsewhere = write-Elsewhere;
    get-delete = λ c n w h. get-remove c n w;
    get-delete_absent = λ c n w h k. get-remove c n w;
    get-delete_elsewhere = remove-Elsewhere;
  }
