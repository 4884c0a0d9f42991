-- ===== src/Controller/Effects.antt =====
-- What the handlers of a controller can change.
use account_operator.Base.{refl, Option, none, some, arith}
use account_operator.Api.Account.{Account}
use account_operator.Platform.{Platform, Context}
use account_operator.Platform.Laws.{WorkspaceLaws}
use account_operator.ClusteredName.{Object, account, account_info}
use account_operator.Exec.Preserves.{Preserves}
use account_operator.Controller.{
  Subroutine, workspace_type, workspace, manage_account_info, workspace_ready,
  finalize_account_info,
}
use account_operator.Controller.Dispatch.{Handler, processor, finalizer}
use account_operator.Subroutines.FinalizeAccountInfo
use account_operator.Subroutines.ManageAccountInfo
use account_operator.Subroutines.ManageAccountInfo.Effects.{BlindToInfos}
use account_operator.Subroutines.Workspace
use account_operator.Subroutines.Workspace.Effects.{BlindToWorkspace}
use account_operator.Subroutines.WorkspaceReady
use account_operator.Subroutines.WorkspaceType
use account_operator.Subroutines.WorkspaceType.Effects.{BlindToTypesOf}

abbrev OnAccount : (Account → Type 0) → Object → Type 0
OnAccount T (account a) = T a.val
OnAccount T (account_info _) = Unit

module _ (P : Platform) {X : Type 0} (view : P.World → X) where
  abbrev pub Leaves : Object → Option (Handler P) → Type 0
  Leaves o none = Unit
  Leaves o (some h) = (ctx : Context) → Preserves P view (h ctx o)

  ready-Preserves : (ctx : Context) (o : Object) → Preserves P view (WorkspaceReady.process P ctx o)
  unfolding WorkspaceReady.process
  ready-Preserves ctx (account a) s = ground arith
  ready-Preserves ctx (account_info i) s = refl

  childless-Preserves :
      (ctx : Context) (o : Object) → Preserves P view (FinalizeAccountInfo.finalize P ctx o)
  unfolding FinalizeAccountInfo.finalize
  childless-Preserves ctx (account a) s = refl
  childless-Preserves ctx (account_info i) s = ground arith

  module _ {M L : Type 0} where
    -- What is seen does not change with the writes that the subroutine makes for the object: an
    -- organization's workspace types, the account's workspace, AccountInfos named "account", or
    -- nothing.
    abbrev pub BlindTo : Subroutine M L → Object → Type 0
    BlindTo (workspace_type _) o = OnAccount (BlindToTypesOf P view) o
    BlindTo (workspace _) o = OnAccount (λ a. BlindToWorkspace P view a.meta.name) o
    BlindTo (manage_account_info _) o = OnAccount (λ _. BlindToInfos P view) o
    BlindTo (workspace_ready _) o = Unit
    BlindTo (finalize_account_info _) o = Unit

    -- Each subroutine writes one kind of object at the names of its account, or none: whatever these
    -- writes do not change is left as it is by its handlers, in any context, from any state and with
    -- any outcome.
    pub handlers-Preserves :
        WorkspaceLaws P
        → (x : Subroutine M L) (o : Object) → BlindTo x o
        → Leaves o (processor P x) × Leaves o (finalizer P x)
    unfolding WorkspaceType.process WorkspaceType.finalize Workspace.process Workspace.finalize
        ManageAccountInfo.process
    handlers-Preserves W (workspace_type x) (account a) b = (
      λ ctx. WorkspaceType.Effects.process-Preserves P view ctx a b,
      λ ctx. WorkspaceType.Effects.finalize-Preserves P view ctx a b,
    )
    handlers-Preserves W (workspace_type x) (account_info i) b = (λ ctx s. refl, λ ctx s. refl)
    handlers-Preserves W (workspace x) (account a) b = (
      λ ctx. Workspace.Effects.process-Preserves P view ctx a b,
      λ ctx. Workspace.Effects.finalize-Preserves P view ctx a b W,
    )
    handlers-Preserves W (workspace x) (account_info i) b = (λ ctx s. refl, λ ctx s. refl)
    handlers-Preserves W (manage_account_info x) (account a) b =
        (λ ctx. ManageAccountInfo.Effects.process-Preserves P view x.server_ca ctx a b, tt)
    handlers-Preserves W (manage_account_info x) (account_info i) b = (λ ctx s. refl, tt)
    handlers-Preserves W (workspace_ready x) o b = (λ ctx. ready-Preserves ctx o, tt)
    handlers-Preserves W (finalize_account_info x) o b = (tt, λ ctx. childless-Preserves ctx o)
