-- ===== src/Api/DeepCopy/Independent/Objects.antt =====
-- The objects of the API group and their lists: `DeepCopy` gives an equal object that shares no
-- memory with the receiver.
use account_operator.Base.{ℕ, ◌<◌, ◌≡◌, Option, All, ◌++◌, arith}
use account_operator.Meta.{Ref}
use account_operator.Api.DeepCopy.Alloc.{new_copy}
use account_operator.Api.DeepCopy.Alloc.Copied.{
  Copying, Lawful, Fresh, Fresh-append, Apart, Fresh-Apart, pointer-Lawful, slice, slice-Lawful,
  addresses_of, value_of, IsValidOf,
}
use account_operator.Api.DeepCopy.Layout.{
  Account, AccountValidator, AccountInfo, AccountInfoList, AccountList,
}
use account_operator.Api.DeepCopy.Into.{
  account_into, account_info_into, account_info_list_into, account_list_into,
}
use account_operator.Api.DeepCopy.Copy.{
  account_copy, account_list_copy, account_info_copy, account_info_list_copy,
  account_validator_copy,
}
use account_operator.Api.DeepCopy.Packages.{Packages, PackagesLaws, memory, values}
use account_operator.Api.DeepCopy.Independent.{
  account_spec, account_spec-Lawful, account_status, account_status-Lawful, account_info_spec,
  account_info_spec-Lawful, account_validator, account_validator-Lawful,
}

module _ (P : Packages) where
  abbrev pub account : Copying (Account (memory P)) (Account (values P))
  account = record {
    into = account_into P;
    value = λ x. record {
      type_meta = x.type_meta;
      meta = P.object_meta.value x.meta;
      spec = (account_spec P).value x.spec;
      status = (account_status P).value x.status;
    };
    addresses = λ x.
        P.object_meta.addresses x.meta
        ++ ((account_spec P).addresses x.spec ++ (account_status P).addresses x.status);
    IsValid = λ x.
        P.object_meta.IsValid x.meta
        × (account_spec P).IsValid x.spec
        × (account_status P).IsValid x.status;
  }

  abbrev pub account_list : Copying (AccountList (memory P)) (AccountList (values P))
  account_list = record {
    into = account_list_into P;
    value = λ x. record {
      type_meta = x.type_meta;
      meta = P.list_meta.value x.meta;
      items = (slice account).value x.items;
    };
    addresses = λ x. P.list_meta.addresses x.meta ++ (slice account).addresses x.items;
    IsValid = λ x. P.list_meta.IsValid x.meta × (slice account).IsValid x.items;
  }

  abbrev pub account_info : Copying (AccountInfo (memory P)) (AccountInfo (values P))
  account_info = record {
    into = account_info_into P;
    value = λ x. record {
      type_meta = x.type_meta;
      meta = P.object_meta.value x.meta;
      spec = (account_info_spec P).value x.spec;
      status = x.status;
    };
    addresses = λ x. P.object_meta.addresses x.meta ++ (account_info_spec P).addresses x.spec;
    IsValid = λ x. P.object_meta.IsValid x.meta × (account_info_spec P).IsValid x.spec;
  }

  abbrev pub account_info_list : Copying (AccountInfoList (memory P)) (AccountInfoList (values P))
  account_info_list = record {
    into = account_info_list_into P;
    value = λ x. record {
      type_meta = x.type_meta;
      meta = P.list_meta.value x.meta;
      items = (slice account_info).value x.items;
    };
    addresses = λ x. P.list_meta.addresses x.meta ++ (slice account_info).addresses x.items;
    IsValid = λ x. P.list_meta.IsValid x.meta × (slice account_info).IsValid x.items;
  }

-- The copy has the value of what is copied and shares no address with it. Its own addresses are
-- all different, none was in use before, and the ones allocated later are others again.
pub record Independent {A V : Type 0} (c : Copying A V) (x : Option (Ref A)) (n : ℕ)
    (copy : Option (Ref A) × ℕ) : Type 0 where
  pub same : value_of c copy.0 ≡ value_of c x
  pub apart : Apart (addresses_of c x) (addresses_of c copy.0)
  pub fresh : Fresh n (addresses_of c copy.0) copy.1

-- The receiver is well formed and its memory is in use: it lies below the next address.
pub record InUse {A V : Type 0} (c : Copying A V) (x : Option (Ref A)) (n : ℕ) : Type 0 where
  pub valid : IsValidOf c x
  pub used : All (λ a. a < n) (addresses_of c x)

new_copy-Independent :
    {A V : Type 0} (c : Copying A V)
    → Lawful c
    → (x : Option (Ref A)) (n : ℕ) → InUse c x n
    → Independent c x n (new_copy c.into x n)
new_copy-Independent c L x n h =
    let k = pointer-Lawful c L x n h.valid in
    record {
      same = k.same;
      apart = Fresh-Apart n n _ _ _ (omega arith) h.used k.fresh;
      fresh = k.fresh;
    }

module _ (P : Packages) (L : PackagesLaws P) where
  account-Lawful : Lawful (account P)
  unfolding account_into
  account-Lawful x n (h1, h2, h3) =
      let a = L.object_meta x.meta n h1 in
      let m1 = (P.object_meta.into x.meta n).1 in
      let b = account_spec-Lawful P L x.spec m1 h2 in
      let m2 = ((account_spec P).into x.spec m1).1 in
      let c = account_status-Lawful P L x.status m2 h3 in
      record {
        same = cc (a.same, b.same, c.same);
        fresh = Fresh-append n m1 _ _ _ a.fresh (Fresh-append m1 m2 _ _ _ b.fresh c.fresh);
      }

  account_list-Lawful : Lawful (account_list P)
  unfolding account_list_into
  account_list-Lawful x n (h1, h2) =
      let a = L.list_meta x.meta n h1 in
      let m = (P.list_meta.into x.meta n).1 in
      let b = slice-Lawful (account P) account-Lawful x.items m h2 in
      record { same = cc (a.same, b.same); fresh = Fresh-append n m _ _ _ a.fresh b.fresh }

  account_info-Lawful : Lawful (account_info P)
  unfolding account_info_into
  account_info-Lawful x n (h1, h2) =
      let a = L.object_meta x.meta n h1 in
      let m = (P.object_meta.into x.meta n).1 in
      let b = account_info_spec-Lawful P x.spec m h2 in
      record { same = cc (a.same, b.same); fresh = Fresh-append n m _ _ _ a.fresh b.fresh }

  account_info_list-Lawful : Lawful (account_info_list P)
  unfolding account_info_list_into
  account_info_list-Lawful x n (h1, h2) =
      let a = L.list_meta x.meta n h1 in
      let m = (P.list_meta.into x.meta n).1 in
      let b = slice-Lawful (account_info P) account_info-Lawful x.items m h2 in
      record { same = cc (a.same, b.same); fresh = Fresh-append n m _ _ _ a.fresh b.fresh }

  -- `DeepCopy` of an Account, of an AccountList and of an AccountValidator, nil or not, gives an
  -- equal value that shares no memory with the receiver nor with anything that was in use before,
  -- if the receiver's memory is in use and the `DeepCopyInto` methods of the other packages do the
  -- same.
  pub account_copies-Independent :
      (x : Option (Ref (Account (memory P)))) (l : Option (Ref (AccountList (memory P))))
      (v : Option (Ref (AccountValidator (memory P)))) (n : ℕ)
      → InUse (account P) x n
      → InUse (account_list P) l n
      → InUse (account_validator P) v n
      → Independent (account P) x n (account_copy P x n)
        × Independent (account_list P) l n (account_list_copy P l n)
        × Independent (account_validator P) v n (account_validator_copy P v n)
  unfolding account_copy account_list_copy account_validator_copy
  account_copies-Independent x l v n h k j = (
    new_copy-Independent (account P) account-Lawful x n h,
    new_copy-Independent (account_list P) account_list-Lawful l n k,
    new_copy-Independent (account_validator P) (account_validator-Lawful P) v n j,
  )

  -- `DeepCopy` of an AccountInfo and of an AccountInfoList whose maps repeat no key, nil or not,
  -- gives an equal object that shares no memory with the receiver nor with anything that was in use
  -- before, if the receiver's memory is in use and the `DeepCopyInto` methods of the other packages
  -- make such copies.
  pub account_info_copies-Independent :
      (x : Option (Ref (AccountInfo (memory P)))) (l : Option (Ref (AccountInfoList (memory P))))
      (n : ℕ)
      → InUse (account_info P) x n
      → InUse (account_info_list P) l n
      → Independent (account_info P) x n (account_info_copy P x n)
        × Independent (account_info_list P) l n (account_info_list_copy P l n)
  unfolding account_info_copy account_info_list_copy
  account_info_copies-Independent x l n h k = (
    new_copy-Independent (account_info P) account_info-Lawful x n h,
    new_copy-Independent (account_info_list P) account_info_list-Lawful l n k,
  )
