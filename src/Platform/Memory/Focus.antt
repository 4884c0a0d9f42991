-- ===== src/Platform/Memory/Focus.antt =====
-- The clients of one kind of object in a world that holds several kinds.
use account_operator.Base.{String, ◌≡◌, ap, inr, ◌∙◌, arith}
use account_operator.Meta.{ObjectMeta}
use account_operator.Platform.{Client, OperationResult, Result, ok, err}
use account_operator.Platform.Laws.{ClientLaws, AtomicLaws, Stored, Elsewhere}
use account_operator.Platform.Memory.Shelf.{
  MemoryError, is_not_found, Objects, client, client-ClientLaws, get, write, save, remove,
}

module _ {W A : Type 0} (meta : A → ObjectMeta) (objects : W → Objects meta)
    (put : Objects meta → W → W) where
  abbrev lift : {R : Type 0} → R × Objects meta → W → R × W
  lift (r, xs) w = (r, put xs w)

  abbrev pub focus : Client W MemoryError String A
  focus = record {
    get = λ c n w. get meta c n (objects w);
    delete = λ c n w. lift (remove meta c n (objects w)) w;
    create_or_update = λ c a f w. lift (write meta c a f (objects w)) w;
    create_or_patch = λ c a f w. lift (write meta c a f (objects w)) w;
  }

  module _ (objects-put : (xs : Objects meta) (w : W) → objects (put xs w) ≡ xs) where
    abbrev L : ClientLaws meta is_not_found (client meta)
    L = client-ClientLaws meta

    get-write :
        (c : String) (a : A) (f : A → Result MemoryError A) (w : W) {r : OperationResult}
        → (write meta c a f (objects w)).0 ≡ ok r
        → Stored meta is_not_found focus c a f w (put (write meta c a f (objects w)).1 w)
    get-write c a f w h =
        let st = L.get-update c a f (objects w) h in
        record {
          start = st.start;
          stored = st.stored;
          starts = st.starts;
          mutated = st.mutated;
          read = rw objects-put st.read;
        }

    write-Elsewhere :
        (c : String) (a : A) (f : A → Result MemoryError A) (w : W)
        → Elsewhere meta is_not_found focus c
            (meta a).name
            w
            (put (write meta c a f (objects w)).1 w)
    write-Elsewhere c a f w c' n' = rw objects-put (L.get-update_elsewhere c a f (objects w) c' n')

    pub focus-ClientLaws : ClientLaws meta is_not_found focus
    focus-ClientLaws = record {
      name-get = λ c n w h. L.name-get c n (objects w) h;
      get-update = get-write;
      get-patch = get-write;
      get-update_elsewhere = write-Elsewhere;
      get-patch_elsewhere = write-Elsewhere;
      get-delete = λ c n w h. rw objects-put (L.get-delete c n (objects w) h);
      get-delete_absent = λ c n w h k. rw objects-put (L.get-delete_absent c n (objects w) h k);
      get-delete_elsewhere =
          λ c n w c' n'. rw objects-put (L.get-delete_elsewhere c n (objects w) c' n');
    }

    write_failed :
        (c : String) (a : A) (f : A → Result MemoryError A) (w : W) {e : MemoryError}
        → (write meta c a f (objects w)).0 ≡ err e
        → get meta c (meta a).name (objects (put (write meta c a f (objects w)).1 w))
          ≡ get meta c (meta a).name (objects w)
    unfolding write save
    write_failed c a f w h =
        let same : (write meta c a f (objects w)).1 ≡ objects w = ground (arith, h) in
        ap (get meta c (meta a).name) (objects-put _ w ∙ same)

    pub focus-AtomicLaws : AtomicLaws meta is_not_found focus
    focus-AtomicLaws = record {
      get-update_failed = λ c a f w h. inr (write_failed c a f w h);
      get-patch_failed = λ c a f w h. inr (write_failed c a f w h);
    }
