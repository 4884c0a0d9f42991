-- ===== src/Controller/Dispatch.antt =====
-- The interfaces of the subroutines library as the five subroutines implement them: every one has a
-- name, and it may be a `Processor`, a `Finalizer`, or both.
use account_operator.Base.{String, Option, none, some, List, [], ◌∷◌, ◌++◌}
use account_operator.Platform.{Platform, Context}
use account_operator.ClusteredName.{Object, account, account_info}
use account_operator.Exec.{Exec, SubroutineResult}
use account_operator.Controller.{
  Subroutine, workspace_type, workspace, manage_account_info, workspace_ready,
  finalize_account_info,
}
use account_operator.Subroutines.FinalizeAccountInfo
use account_operator.Subroutines.ManageAccountInfo
use account_operator.Subroutines.Workspace
use account_operator.Subroutines.WorkspaceReady
use account_operator.Subroutines.WorkspaceType

-- The kind that `newObject` of a lifecycle names.
abbrev pub kind_of : Object → String
kind_of (account _) = "Account"
kind_of (account_info _) = "AccountInfo"

abbrev pub Handler : Platform → Type 0
Handler P = Context → Object → Exec P SubroutineResult

abbrev put_before : Option (List String) → Option (List String) → Option (List String)
put_before (some xs) (some ys) = some (xs ++ ys)
put_before (some xs) none = none
put_before none _ = none

module _ {M L : Type 0} where
  abbrev pub get_name : Subroutine M L → String
  get_name (workspace_type _) = WorkspaceType.get_name
  get_name (workspace _) = Workspace.get_name
  get_name (manage_account_info _) = ManageAccountInfo.get_name
  get_name (workspace_ready _) = WorkspaceReady.get_name
  get_name (finalize_account_info _) = FinalizeAccountInfo.get_name

  module _ (P : Platform) where
    -- `Process`, where the subroutine is a `Processor`.
    abbrev pub processor : Subroutine M L → Option (Handler P)
    processor (workspace_type _) = some (WorkspaceType.process P)
    processor (workspace _) = some (Workspace.process P)
    processor (manage_account_info x) = some (ManageAccountInfo.process P x.server_ca)
    processor (workspace_ready _) = some (WorkspaceReady.process P)
    processor (finalize_account_info _) = none

    -- `Finalize`, where it is a `Finalizer`.
    abbrev pub finalizer : Subroutine M L → Option (Handler P)
    finalizer (workspace_type _) = some (WorkspaceType.finalize P)
    finalizer (workspace _) = some (Workspace.finalize P)
    finalizer (manage_account_info _) = none
    finalizer (workspace_ready _) = none
    finalizer (finalize_account_info _) = some (FinalizeAccountInfo.finalize P)

  -- `Finalizers`; a subroutine that is no `Finalizer` has none. That of WorkspaceType asserts that
  -- the object is an Account, and panics on any other: here `none`.
  abbrev pub finalizers : Subroutine M L → Object → Option (List String)
  finalizers (workspace_type _) (account a) = some (WorkspaceType.finalizers a.val)
  finalizers (workspace_type _) (account_info _) = none
  finalizers (workspace _) o = some (Workspace.finalizers o)
  finalizers (manage_account_info _) o = some []
  finalizers (workspace_ready _) o = some []
  finalizers (finalize_account_info _) o = some (FinalizeAccountInfo.finalizers o)

  -- The finalizers that all the subroutines of a controller hold on an object.
  abbrev pub all_finalizers : List (Subroutine M L) → Object → Option (List String)
  all_finalizers [] o = some []
  all_finalizers (x ∷ xs) o = put_before (finalizers x o) (all_finalizers xs o)
