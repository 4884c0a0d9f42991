-- ===== src/Controller/Runs/Others.antt =====
-- Runs for other accounts.
use account_operator.Base.{String, ◌≡◌, ◌≢◌}
use account_operator.Api.Account.{AccountType, account_type_org}
use account_operator.Kcp.{new_workspace}
use account_operator.Platform.{Platform, Context}
use account_operator.Platform.Laws.{WorkspaceLaws, WorkspaceTypeLaws, KindLaws, kept_elsewhere}
use account_operator.ClusteredName.{Object, account, account_info}
use account_operator.Exec.{State}
use account_operator.Controller.{
  Subroutine, workspace_type, workspace, manage_account_info, workspace_ready,
  finalize_account_info,
}
use account_operator.Controller.Effects.{BlindTo}
use account_operator.Controller.Runs.{RunsOn, runs-Preserves}
use account_operator.Controller.Runs.Kinds.{
  Apart-BlindToType, Apart-BlindToInfos, Apart-BlindToWorkspace,
}
use account_operator.Subroutines.Util.{get_workspace_type_name}
use account_operator.Subroutines.Util.Names.{IsKnown}
use account_operator.Subroutines.WorkspaceType.Tenants.{other_types}

-- An account of another name, or any AccountInfo.
abbrev pub IsOther : String → Object → Type 0
IsOther name (account a) = a.val.meta.name ≢ name
IsOther name (account_info _) = Unit

module _ (P : Platform) {M L : Type 0} where
  abbrev pub OnOthers : String → Subroutine M L → Context → Object → State P → Type 0
  OnOthers name x ctx o s = IsOther name o

  -- Not a run of the Workspace subroutine for an account of the name.
  abbrev pub MissesWorkspace : String → Subroutine M L → Context → Object → State P → Type 0
  MissesWorkspace name (workspace x) ctx o s = IsOther name o
  MissesWorkspace name (workspace_type x) ctx o s = Unit
  MissesWorkspace name (manage_account_info x) ctx o s = Unit
  MissesWorkspace name (workspace_ready x) ctx o s = Unit
  MissesWorkspace name (finalize_account_info x) ctx o s = Unit

  -- Not a run of the WorkspaceType subroutine for an organization of the name.
  abbrev pub MissesTypes : String → Subroutine M L → Context → Object → State P → Type 0
  MissesTypes name (workspace_type x) ctx (account a) s =
      a.val.spec.type ≡ account_type_org → a.val.meta.name ≢ name
  MissesTypes name (workspace_type x) ctx (account_info i) s = Unit
  MissesTypes name (workspace x) ctx o s = Unit
  MissesTypes name (manage_account_info x) ctx o s = Unit
  MissesTypes name (workspace_ready x) ctx o s = Unit
  MissesTypes name (finalize_account_info x) ctx o s = Unit

  OnOthers-MissesTypes :
      (name : String) (x : Subroutine M L) (ctx : Context) (o : Object) (s : State P)
      → OnOthers name x ctx o s
      → MissesTypes name x ctx o s
  OnOthers-MissesTypes name (workspace_type x) ctx (account a) s h = λ is_org. h
  OnOthers-MissesTypes name (workspace_type x) ctx (account_info i) s h = tt
  OnOthers-MissesTypes name (workspace x) ctx o s h = tt
  OnOthers-MissesTypes name (manage_account_info x) ctx o s h = tt
  OnOthers-MissesTypes name (workspace_ready x) ctx o s h = tt
  OnOthers-MissesTypes name (finalize_account_info x) ctx o s h = tt

  OnOthers-MissesWorkspace :
      (name : String) (x : Subroutine M L) (ctx : Context) (o : Object) (s : State P)
      → OnOthers name x ctx o s
      → MissesWorkspace name x ctx o s
  OnOthers-MissesWorkspace name (workspace x) ctx o s h = h
  OnOthers-MissesWorkspace name (workspace_type x) ctx o s h = tt
  OnOthers-MissesWorkspace name (manage_account_info x) ctx o s h = tt
  OnOthers-MissesWorkspace name (workspace_ready x) ctx o s h = tt
  OnOthers-MissesWorkspace name (finalize_account_info x) ctx o s h = tt

  module _ (W : WorkspaceLaws P) (T : WorkspaceTypeLaws P) (K : KindLaws P) (name : String)
      (c : P.Cluster) where
    other_workspace :
        (x : Subroutine M L) (ctx : Context) (o : Object) (s : State P)
        → MissesWorkspace name x ctx o s
        → BlindTo P (λ w. P.workspaces.get c name w) x o
    other_workspace (workspace_type x) ctx (account a) s h = λ _. (
      Apart-BlindToType P P.workspaces K.types-workspaces c name _,
      Apart-BlindToType P P.workspaces K.types-workspaces c name _,
    )
    other_workspace (workspace_type x) ctx (account_info i) s h = tt
    other_workspace (workspace x) ctx (account a) s h = record {
      updated = λ d f w.
          kept_elsewhere h (W.get-update_elsewhere d (new_workspace a.val.meta.name) f w c name);
      deleted = λ d w. kept_elsewhere h (W.get-delete_elsewhere d a.val.meta.name w c name);
    }
    other_workspace (workspace x) ctx (account_info i) s h = tt
    other_workspace (manage_account_info x) ctx (account a) s h =
        Apart-BlindToInfos P P.workspaces K.infos-workspaces c name
    other_workspace (manage_account_info x) ctx (account_info i) s h = tt
    other_workspace (workspace_ready x) ctx o s h = tt
    other_workspace (finalize_account_info x) ctx o s h = tt

    pub workspace_kept :
        {s s' : State P}
        → RunsOn P M L (MissesWorkspace name) s s'
        → P.workspaces.get c name s'.world ≡ P.workspaces.get c name s.world
    workspace_kept runs =
        runs-Preserves P (λ w. P.workspaces.get c name w) W (MissesWorkspace name) other_workspace
          runs

    other_workspace_types :
        (t : AccountType)
        → IsKnown t
        → (x : Subroutine M L) (ctx : Context) (o : Object) (s : State P)
        → MissesTypes name x ctx o s
        → BlindTo P (λ w. P.workspace_types.get c (get_workspace_type_name name t) w) x o
    other_workspace_types t known (workspace_type x) ctx (account a) s h =
        λ is_org. other_types P T c name a.val.meta.name t known (h is_org)
    other_workspace_types t known (workspace_type x) ctx (account_info i) s h = tt
    other_workspace_types t known (workspace x) ctx (account a) s h =
        Apart-BlindToWorkspace P P.workspace_types K.workspaces-types c _ a.val.meta.name
    other_workspace_types t known (workspace x) ctx (account_info i) s h = tt
    other_workspace_types t known (manage_account_info x) ctx (account a) s h =
        Apart-BlindToInfos P P.workspace_types K.infos-types c _
    other_workspace_types t known (manage_account_info x) ctx (account_info i) s h = tt
    other_workspace_types t known (workspace_ready x) ctx o s h = tt
    other_workspace_types t known (finalize_account_info x) ctx o s h = tt

    pub types_kept :
        (t : AccountType)
        → IsKnown t
        → {s s' : State P} → RunsOn P M L (MissesTypes name) s s'
        → P.workspace_types.get c (get_workspace_type_name name t) s'.world
          ≡ P.workspace_types.get c (get_workspace_type_name name t) s.world
    types_kept t known runs =
        runs-Preserves P (λ w. P.workspace_types.get c (get_workspace_type_name name t) w) W
          (MissesTypes name) (other_workspace_types t known) runs

    any_account :
        (m : String) (x : Subroutine M L) (o : Object) → BlindTo P (λ w. P.accounts.get c m w) x o
    any_account m (workspace_type x) (account a) = λ _. (
      Apart-BlindToType P P.accounts K.types-accounts c m _,
      Apart-BlindToType P P.accounts K.types-accounts c m _,
    )
    any_account m (workspace_type x) (account_info i) = tt
    any_account m (workspace x) (account a) =
        Apart-BlindToWorkspace P P.accounts K.workspaces-accounts c m a.val.meta.name
    any_account m (workspace x) (account_info i) = tt
    any_account m (manage_account_info x) (account a) =
        Apart-BlindToInfos P P.accounts K.infos-accounts c m
    any_account m (manage_account_info x) (account_info i) = tt
    any_account m (workspace_ready x) o = tt
    any_account m (finalize_account_info x) o = tt

    -- Runs of any handlers of the two controllers, in any number, order and contexts and with any
    -- outcome, on AccountInfos and on accounts that have another name, leave the workspace of an
    -- account as it is, and its own workspace types, of the types "org" and "account", in every
    -- cluster; and every account is read as before.
    pub others_keep :
        (t : AccountType)
        → IsKnown t
        → (m : String) {s s' : State P} → RunsOn P M L (OnOthers name) s s'
        → (P.workspaces.get c name s'.world ≡ P.workspaces.get c name s.world)
          × (P.workspace_types.get c (get_workspace_type_name name t) s'.world
              ≡ P.workspace_types.get c (get_workspace_type_name name t) s.world)
          × (P.accounts.get c m s'.world ≡ P.accounts.get c m s.world)
    others_keep t known m runs = (
      runs-Preserves P (λ w. P.workspaces.get c name w) W (OnOthers name)
          (λ x ctx o s h. other_workspace x ctx o s (OnOthers-MissesWorkspace name x ctx o s h))
          runs,
      runs-Preserves P (λ w. P.workspace_types.get c (get_workspace_type_name name t) w) W
          (OnOthers name)
          (λ x ctx o s h.
            other_workspace_types t known x ctx o s (OnOthers-MissesTypes name x ctx o s h))
          runs,
      runs-Preserves P (λ w. P.accounts.get c m w) W (OnOthers name)
          (λ x ctx o s h. any_account m x o) runs,
    )
