-- ===== src/Subroutines/Workspace/Again.antt =====
-- Ensuring the workspace of an account once more.
use account_operator.Base.{String, Option, ◌≡◌, sym, ap, ◌∙◌, inl, inr, some, arith}
use account_operator.Meta.{Ref}
use account_operator.Api.Account.{Account}
use account_operator.Api.AccountInfo.{AccountInfo}
use account_operator.Subroutines.Util.{get_workspace_type_name}
use account_operator.Kcp.{Workspace, WorkspaceTypeReference}
use account_operator.Platform.{Platform, Context, ok}
use account_operator.Platform.Laws.{WorkspaceLaws, OwnerLaws, OwnerAgain}
use account_operator.ClusteredName.{account}
use account_operator.Exec.{State, returns, done}
use account_operator.Subroutines.ManageAccountInfo.{default_account_info_name}
use account_operator.Subroutines.Workspace.{process, mutate_workspace}
use account_operator.Subroutines.Workspace.Create.{process-Created}
use account_operator.Subroutines.Workspace.Prepare.{Chosen}

typed_again :
    (ws : Workspace) (t : Option WorkspaceTypeReference)
    → ws.spec.type ≡ t
    → record ws { spec = record ws.spec { type = t } } ≡ ws
typed_again ws t h = ground (arith, h)

module _ (P : Platform) where
  -- Between the two runs nothing has changed that a run reads to choose the workspace.
  pub record Unchanged (w w1 w' : P.World) (name : String) : Type 0 where
    pub clusters : (n : String) → P.get_cluster n w' ≡ P.get_cluster n w
    pub workspaces : (c : P.Cluster) → P.workspaces.get c name w' ≡ P.workspaces.get c name w1
    pub infos :
        (c : P.Cluster)
        → P.account_infos.get c default_account_info_name w'
          ≡ P.account_infos.get c default_account_info_name w

  -- A workspace that the mutation has made is left by the mutation as it is.
  mutate_workspace_again :
      OwnerLaws P
      → OwnerAgain P
      → (owner : Account) (n : String) (before ws : Workspace)
      → mutate_workspace P owner n before ≡ ok ws
      → mutate_workspace P owner n ws ≡ ok ws
  mutate_workspace_again O A owner n before ws h =
      let typed : ws.spec.type ≡ some (record { name = n; path = "root:orgs" }) =
        ap (λ x. x.type) (O.spec-set_owner owner _ h) in
      ap (P.set_owner_reference owner) (typed_again ws _ typed) ∙ A.set_owner_again owner _ h

  -- The name of the workspace type depends on what is read alone.
  same_name :
      (inst : Account) (c c' : P.Cluster) (w w' : P.World) (x : Chosen P inst c w)
      (y : Chosen P inst c' w')
      → P.account_infos.get c' default_account_info_name w'
        ≡ P.account_infos.get c default_account_info_name w
      → y.type_name ≡ x.type_name
  same_name inst c c' w w' x y e = elim x.choice [
    | inl (t, n) ↦ elim y.choice [
      | inl (t', n') ↦ ground (arith, x.named, y.named, n, n')
      | inr (info, t', _, _, _) ↦ absurd (t' t)
    ]
    | inr (info, t, read, set, n) ↦ elim y.choice [
      | inl (t', n') ↦ absurd (t t')
      | inr (info', t', read', set', n') ↦
          let same : info' ≡ info = ground (arith, e, read, read') in
          y.named
          ∙ ap (λ o. get_workspace_type_name o inst.spec.type)
              (n' ∙ ap (λ (i : AccountInfo). i.spec.organization.name) same ∙ sym n)
          ∙ sym x.named
    ]
  ]

  module _ (L : WorkspaceLaws P) (O : OwnerLaws P) (A : OwnerAgain P) (ctx : Context)
      (inst : Ref Account) (s s' : State P) where
    abbrev after : P.World
    after = (process P ctx (account inst) s).1.world

    -- Where the subroutine has succeeded for an account, and nothing that a run reads to choose the
    -- workspace has changed since, another run that succeeds leaves the account's workspace, in the
    -- cluster of the context, as it is.
    pub workspace_again :
        (id : String) (c : P.Cluster)
        → ctx.cluster ≡ some id
        → P.get_cluster id s.world ≡ ok c
        → (process P ctx (account inst) s).0 ≡ returns done
        → Unchanged s.world after s'.world inst.val.meta.name
        → (process P ctx (account inst) s').0 ≡ returns done
        → P.workspaces.get c inst.val.meta.name (process P ctx (account inst) s').1.world
          ≡ P.workspaces.get c inst.val.meta.name s'.world
    workspace_again id c in_context found h u h' =
        let (p, a) = process-Created P ctx inst s L O h in
        let (q, b) = process-Created P ctx inst s' L O h' in
        let e : p.cluster ≡ c = ground (arith, p.in_context, in_context, p.found, found) in
        let e' : q.cluster ≡ c =
          ground (arith, q.in_context, in_context, q.found, u.clusters id, found) in
        let chosen : q.chosen.type_name ≡ p.chosen.type_name =
          same_name inst.val p.cluster q.cluster s.world s'.world p.chosen q.chosen (
            u.infos q.cluster
            ∙ ap (λ k. P.account_infos.get k default_account_info_name s.world) (e' ∙ sym e)) in
        let read : P.workspaces.get c inst.val.meta.name s'.world ≡ ok a.workspace =
          u.workspaces c ∙ (rw e at a.read) in
        let left =
          mutate_workspace_again O A inst.val p.chosen.type_name a.before a.workspace a.whole in
        elim b.starts [
          | inl r ↦
              let old : b.before ≡ a.workspace = ground (arith, e', r, read) in
              let new : ok b.workspace ≡ ok a.workspace = sym b.whole ∙ rw (chosen, old) left in
              (rw e' at b.read) ∙ new ∙ sym read
          | inr (x, r, _, _) ↦ absurd (ground (arith, e', r, read))
        ]
