-- ===== src/ClusteredName.antt =====
-- pkg/clusteredname/clusteredname.go, and the objects that the lifecycle hands to a subroutine.
use account_operator.Base.{String, Bool, true, false, none, some, if◌then◌else◌}
use account_operator.Meta.{ObjectMeta, Ref}
use account_operator.Api.Account.{Account}
use account_operator.Api.AccountInfo.{AccountInfo}
use account_operator.Platform.{Platform, Context}
use account_operator.Exec.{Exec, pure, panic}

-- A `client.Object`, of the two kinds that the operator's controllers reconcile.
pub data Object : Type 0 where
  account : Ref Account → Object
  account_info : Ref AccountInfo → Object

abbrev pub object_meta : Object → ObjectMeta
object_meta (account a) = a.val.meta
object_meta (account_info i) = i.val.meta

-- `obj.(*v1alpha1.Account)` and `obj.(*v1alpha1.AccountInfo)`
abbrev pub as_account : {P : Platform} → Object → Exec P (Ref Account)
as_account (account a) = pure a
as_account (account_info i) = panic "interface conversion: not an Account"

abbrev pub as_account_info : {P : Platform} → Object → Exec P (Ref AccountInfo)
as_account_info (account a) = panic "interface conversion: not an AccountInfo"
as_account_info (account_info i) = pure i

pub record ClusteredName : Type 0 where
  pub name : String
  pub namespace : String
  pub cluster_id : String

unfoldable pub get_clustered_name : Context → Object → ClusteredName × Bool
get_clustered_name ctx obj =
    let cn : String → ClusteredName = λ id. record {
      name = (object_meta obj).name;
      namespace = (object_meta obj).namespace;
      cluster_id = id;
    } in
    elim ctx.cluster [ none ↦ (cn "", false) | some id ↦ (cn id, true) ]

unfoldable pub must_get_clustered_name : {P : Platform} → Context → Object → Exec P ClusteredName
unfolding get_clustered_name
must_get_clustered_name ctx obj =
    let (cn, found) = get_clustered_name ctx obj in
    if found then pure cn else panic "cluster not found in context, cannot requeue"
