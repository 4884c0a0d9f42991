-- ===== src/Controller/Runs/Infos.antt =====
-- Runs and the AccountInfos of a cluster.
use account_operator.Base.{String, ◌≡◌, ◌≢◌, inl, inr}
use account_operator.Api.AccountInfo.{AccountInfo}
use account_operator.Platform.{Platform, Context, Result}
use account_operator.Platform.Laws.{AccountInfoLaws, WorkspaceLaws, KindLaws}
use account_operator.ClusteredName.{Object, account, account_info}
use account_operator.Exec.{State}
use account_operator.Controller.{
  Subroutine, workspace_type, workspace, manage_account_info, workspace_ready,
  finalize_account_info,
}
use account_operator.Controller.Dispatch.{processor, finalizer}
use account_operator.Controller.Effects.{BlindTo, handlers-Preserves}
use account_operator.Controller.Runs.{RunsOn, KeepsAt, Leaves-KeepsAt, runs_keep}
use account_operator.Controller.Runs.Kinds.{Apart-BlindToType, Apart-BlindToWorkspace}
use account_operator.Subroutines.ManageAccountInfo.Locate.{Located}
use account_operator.Subroutines.ManageAccountInfo.Provision.{process_elsewhere}

module _ (P : Platform) (c : P.Cluster) (n : String) where
  abbrev view : P.World → Result P.ApiError AccountInfo
  view w = P.account_infos.get c n w

module _ (P : Platform) {M L : Type 0} (c : P.Cluster) where
  -- Not a run of ManageAccountInfo that finds a workspace with the cluster `c`.
  abbrev pub Avoids : Subroutine M L → Context → Object → State P → Type 0
  Avoids (manage_account_info x) ctx (account a) s =
      (l : Located P x.server_ca ctx a s) → l.account_cluster ≢ c
  Avoids (manage_account_info x) ctx (account_info i) s = Unit
  Avoids (workspace_type x) ctx o s = Unit
  Avoids (workspace x) ctx o s = Unit
  Avoids (workspace_ready x) ctx o s = Unit
  Avoids (finalize_account_info x) ctx o s = Unit

  module _ (A : AccountInfoLaws P) (W : WorkspaceLaws P) (K : KindLaws P) (n : String) where
    abbrev Step : Subroutine M L → Context → Object → State P → Type 0
    Step x ctx o s =
        KeepsAt P (view P c n) ctx o s (processor P x)
        × KeepsAt P (view P c n) ctx o s (finalizer P x)

    blind_step :
        (x : Subroutine M L) (ctx : Context) (o : Object) (s : State P)
        → BlindTo P (view P c n) x o
        → Step x ctx o s
    blind_step x ctx o s b =
        let (k, f) = handlers-Preserves P (view P c n) W x o b in
        (
          Leaves-KeepsAt P (view P c n) ctx o s (processor P x) k,
          Leaves-KeepsAt P (view P c n) ctx o s (finalizer P x) f,
        )

    pub avoiding_step :
        (x : Subroutine M L) (ctx : Context) (o : Object) (s : State P)
        → Avoids x ctx o s
        → Step x ctx o s
    avoiding_step (workspace_type x) ctx (account a) s h =
        blind_step (workspace_type x) ctx (account a) s (λ _. (
          Apart-BlindToType P P.account_infos K.types-infos c n _,
          Apart-BlindToType P P.account_infos K.types-infos c n _,
        ))
    avoiding_step (workspace_type x) ctx (account_info i) s h =
        blind_step (workspace_type x) ctx (account_info i) s tt
    avoiding_step (workspace x) ctx (account a) s h =
        blind_step (workspace x) ctx (account a) s
          (Apart-BlindToWorkspace P P.account_infos K.workspaces-infos c n a.val.meta.name)
    avoiding_step (workspace x) ctx (account_info i) s h =
        blind_step (workspace x) ctx (account_info i) s tt
    avoiding_step (manage_account_info x) ctx (account a) s h = (
      elim (process_elsewhere P x.server_ca A ctx a s c n) [
        | inl (l, e, _) ↦ absurd (h l e)
        | inr kept ↦ kept
      ],
      tt,
    )
    avoiding_step (manage_account_info x) ctx (account_info i) s h =
        blind_step (manage_account_info x) ctx (account_info i) s tt
    avoiding_step (workspace_ready x) ctx o s h = blind_step (workspace_ready x) ctx o s tt
    avoiding_step (finalize_account_info x) ctx o s h =
        blind_step (finalize_account_info x) ctx o s tt

    -- Runs of any handlers of the two controllers, in any number, order and contexts and with any
    -- outcome, leave every AccountInfo of a cluster as it is, if no run of ManageAccountInfo among
    -- them finds a workspace that has this cluster.
    pub infos_keep :
        {s s' : State P}
        → RunsOn P M L Avoids s s'
        → P.account_infos.get c n s'.world ≡ P.account_infos.get c n s.world
    infos_keep runs = runs_keep P (view P c n) Avoids avoiding_step runs
