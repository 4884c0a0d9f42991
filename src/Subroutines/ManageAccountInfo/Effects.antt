-- ===== src/Subroutines/ManageAccountInfo/Effects.antt =====
-- What a run of the ManageAccountInfo subroutine can change: an AccountInfo named "account".
use account_operator.Base.{String, ◌==◌, ◌≡◌, ap, ◌∙◌, inl, inr, arith, eq_iff, Bool-cases}
use account_operator.Meta.{Ref}
use account_operator.Api.Account.{Account, account_type_org}
use account_operator.Api.AccountInfo.{AccountInfo, AccountLocation, new_account_info}
use account_operator.Platform.{Platform, Context, Result, Result-cases}
use account_operator.ClusteredName.{account}
use account_operator.Exec.Preserves.{Preserves}
use account_operator.Subroutines.ManageAccountInfo.{
  process, process_child, default_account_info_name,
}
use account_operator.Subroutines.ManageAccountInfo.Locate.{process-cases}
use account_operator.Subroutines.ManageAccountInfo.Provision.{
  location, process-eq-process_org, process-eq-process_child,
}
use account_operator.Subroutines.ManageAccountInfo.Write.{world-process_org, world-process_child}

module _ (P : Platform) {X : Type 0} (view : P.World → X) where
  -- No write of an AccountInfo named "account", in any cluster, changes what is seen.
  pub record BlindToInfos : Type 0 where
    pub patched :
        (c : P.Cluster) (f : AccountInfo → Result P.ApiError AccountInfo) (w : P.World)
        → view
            (P.account_infos.create_or_patch c (new_account_info default_account_info_name) f w).1
          ≡ view w
    pub updated :
        (c : P.Cluster) (f : AccountInfo → Result P.ApiError AccountInfo) (w : P.World)
        → view
            (P.account_infos.create_or_update c (new_account_info default_account_info_name) f w).1
          ≡ view w

  module _ (server_ca : String) (ctx : Context) (inst : Ref Account) (blind : BlindToInfos) where
    process_child-Preserves :
        (self : AccountLocation) (from to : P.Cluster)
        → Preserves P view (process_child P server_ca inst self from to)
    unfolding process_child
    process_child-Preserves self from to s =
        elim (Result-cases (P.account_infos.get from default_account_info_name s.world)) [
          | inr (x, e) ↦ ground arith
          | inl (parent, e) ↦
              ap view (world-process_child P server_ca inst self from to s e)
              ∙ blind.updated to _ s.world
        ]

    pub process-Preserves : Preserves P view (process P server_ca ctx (account inst))
    process-Preserves s = elim (process-cases P server_ca ctx inst s) [
      | inl stops ↦ ap view stops.0
      | inr l ↦ elim (Bool-cases (inst.val.spec.type == account_type_org)) [
        | inl same ↦
            rw
              (
                process-eq-process_org P server_ca ctx inst s l ((eq_iff _ _).0 same),
                world-process_org,
              )
              (blind.patched l.account_cluster _ s.world)
        | inr differ ↦
            rw
              (process-eq-process_child P server_ca ctx inst s l
                (λ p. cc (differ, (eq_iff _ _).1 p)))
              (process_child-Preserves (location P server_ca ctx inst s l) l.cluster
                l.account_cluster s)
      ]
    ]
