-- ===== src/Controller/Runs/Roots.antt =====
-- Runs and the organizations that the AccountInfos name.
use account_operator.Base.{String, ◌≡◌, ◌≢◌, Option, none, some, sym, ◌∙◌}
use account_operator.Api.AccountInfo.{AccountInfo, AccountLocation}
use account_operator.Platform.{Platform, Context, ok}
use account_operator.Platform.Laws.{
  AccountInfoLaws, AtomicInfoLaws, WorkspaceLaws, OwnerLaws, KindLaws,
}
use account_operator.ClusteredName.{Object, account, account_info}
use account_operator.Exec.{State, returns, done}
use account_operator.Meta.{Ref}
use account_operator.Api.Account.{Account, account_type_org}
use account_operator.Kcp.{Workspace}
use account_operator.Subroutines.Lineage.{workspace_of_parent}
use account_operator.Subroutines.ManageAccountInfo.Write.{Reads}
use account_operator.Subroutines.Util.{get_workspace_type_name}
use account_operator.Subroutines.Workspace
use account_operator.Controller.{
  Subroutine, workspace_type, workspace, manage_account_info, workspace_ready,
  finalize_account_info,
}
use account_operator.Controller.Dispatch.{Handler, processor, finalizer}
use account_operator.Controller.Runs.{RunsOn, KeepsAt, HoldsAfter, runs_hold}
use account_operator.Controller.Runs.Infos.{Avoids, avoiding_step}
use account_operator.Subroutines.ManageAccountInfo.{default_account_info_name}
use account_operator.Subroutines.ManageAccountInfo.Rooted.{Rooted, Placed, process-Rooted}

module _ (P : Platform) {M L : Type 0} (root_of : P.Cluster → AccountLocation) where
  -- If it is a run of ManageAccountInfo, the cluster of the account's workspace is placed well.
  abbrev pub Follows : Subroutine M L → Context → Object → State P → Type 0
  Follows (manage_account_info x) ctx (account a) s = Placed P root_of x.server_ca ctx a s
  Follows (manage_account_info x) ctx (account_info i) s = Unit
  Follows (workspace_type x) ctx o s = Unit
  Follows (workspace x) ctx o s = Unit
  Follows (workspace_ready x) ctx o s = Unit
  Follows (finalize_account_info x) ctx o s = Unit

module _ (P : Platform) (root_of : P.Cluster → AccountLocation) where
  abbrev Holds : Context → Object → State P → Option (Handler P) → Type 0
  Holds ctx o s m = HoldsAfter P (λ t. Rooted P root_of t.world) ctx o s m

  abbrev Kept : Context → Object → State P → Option (Handler P) → Type 0
  Kept ctx o s m =
      (c : P.Cluster) → KeepsAt P (λ w. P.account_infos.get c default_account_info_name w) ctx o s m

  Kept-Holds :
      (ctx : Context) (o : Object) (s : State P) (m : Option (Handler P))
      → Kept ctx o s m
      → Holds ctx o s m
  Kept-Holds ctx o s none k = tt
  Kept-Holds ctx o s (some h) k = λ r c info read. r c info (sym (k c) ∙ read)

  module _ {M L : Type 0} (A : AccountInfoLaws P) (T : AtomicInfoLaws P) (W : WorkspaceLaws P)
      (K : KindLaws P) where
    abbrev Step : Subroutine M L → Context → Object → State P → Type 0
    Step x ctx o s = Holds ctx o s (processor P x) × Holds ctx o s (finalizer P x)

    other_step :
        (x : Subroutine M L) (ctx : Context) (o : Object) (s : State P)
        → ((c : P.Cluster) → Avoids P c x ctx o s)
        → Step x ctx o s
    other_step x ctx o s h = (
      Kept-Holds ctx o s (processor P x)
          (λ c. (avoiding_step P c A W K default_account_info_name x ctx o s (h c)).0),
      Kept-Holds ctx o s (finalizer P x)
          (λ c. (avoiding_step P c A W K default_account_info_name x ctx o s (h c)).1),
    )

    step :
        (x : Subroutine M L) (ctx : Context) (o : Object) (s : State P)
        → Follows P root_of x ctx o s
        → Step x ctx o s
    step (workspace_type x) ctx o s h = other_step (workspace_type x) ctx o s (λ c. tt)
    step (workspace x) ctx o s h = other_step (workspace x) ctx o s (λ c. tt)
    step (manage_account_info x) ctx (account a) s h =
        (process-Rooted P root_of x.server_ca A T ctx a s h, tt)
    step (manage_account_info x) ctx (account_info i) s h =
        other_step (manage_account_info x) ctx (account_info i) s (λ c. tt)
    step (workspace_ready x) ctx o s h = other_step (workspace_ready x) ctx o s (λ c. tt)
    step (finalize_account_info x) ctx o s h =
        other_step (finalize_account_info x) ctx o s (λ c. tt)

    -- Let every cluster be given an organization, such that the cluster of an organization's
    -- workspace is given the organization itself, and that of any other account's workspace what
    -- the account's own cluster is given. If the AccountInfos "account" of a state name the
    -- organization that their clusters are given, so do all that can be read after runs of any
    -- handlers of the two controllers, in any number, order and contexts and with any outcome.
    pub runs-Rooted :
        {s s' : State P}
        → RunsOn P M L (Follows P root_of) s s'
        → Rooted P root_of s.world
        → (c : P.Cluster) (info : AccountInfo) → Reads P c s'.world info
        → info.spec.organization ≡ root_of c
    runs-Rooted runs r = runs_hold P (λ t. Rooted P root_of t.world) (Follows P root_of) step runs r

    -- Let every cluster be given an organization in that way, and let the AccountInfos of a state
    -- name the one that their clusters are given. After runs of any handlers of the two
    -- controllers, in any number, order and contexts and with any outcome, if the Workspace
    -- subroutine succeeds for an account that is no organization, its workspace can be read in its
    -- cluster, with the workspace type that belongs to the organization given to this cluster.
    pub workspace_of_root :
        OwnerLaws P
        → {s s' : State P} → RunsOn P M L (Follows P root_of) s s'
        → Rooted P root_of s.world
        → (ctx : Context) (inst : Ref Account) (id : String) (c : P.Cluster) → ctx.cluster ≡ some id
        → P.get_cluster id s'.world ≡ ok c
        → inst.val.spec.type ≢ account_type_org
        → (Workspace.process P ctx (account inst) s').0 ≡ returns done
        → (ws : Workspace) × (P.workspaces.get c inst.val.meta.name
              (Workspace.process P ctx (account inst) s').1.world
            ≡ ok ws)
          × (ws.spec.type
              ≡ some (record {
                name = get_workspace_type_name (root_of c).name inst.val.spec.type;
                path = Workspace.orgs_workspace_path;
              }))
    workspace_of_root O {s' = s'} runs r ctx inst id c in_context found =
        workspace_of_parent P (root_of c) W O ctx inst s' id c in_context found
          (runs-Rooted runs r c)
