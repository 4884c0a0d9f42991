-- ===== src/Subroutines/Lineage.antt =====
-- ManageAccountInfo and Workspace together: what the organization at the root of a hierarchy means
-- for the workspaces below it.
use account_operator.Base.{String, ◌≡◌, ap, ◌∙◌, ◌≢◌, inl, inr, some, List, arith}
use account_operator.Meta.{Ref}
use account_operator.Api.Account.{Account, account_type_org}
use account_operator.Api.AccountInfo.{AccountInfo, AccountLocation}
use account_operator.Kcp.{Workspace}
use account_operator.Platform.{Platform, Context, ok}
use account_operator.Platform.Laws.{AccountInfoLaws, WorkspaceLaws, OwnerLaws}
use account_operator.ClusteredName.{account}
use account_operator.Exec.{State, returns, done}
use account_operator.Subroutines.ManageAccountInfo.Hierarchy.{
  Hierarchy, Among, Among-BelongsTo, Hierarchy-BelongsTo,
}
use account_operator.Subroutines.ManageAccountInfo.Write.{Reads}
use account_operator.Subroutines.Util.{get_workspace_type_name}
use account_operator.Subroutines.Workspace.{process, orgs_workspace_path}
use account_operator.Subroutines.Workspace.Create.{process-Created}
use account_operator.Subroutines.Workspace.Prepare.{Chosen}

module _ (P : Platform) (org : AccountLocation) where
  -- The AccountInfo of the cluster names no other organization.
  abbrev pub NamesOnly : P.Cluster → P.World → Type 0
  NamesOnly c w = (info : AccountInfo) → Reads P c w info → info.spec.organization ≡ org

  chosen_of_parent :
      (inst : Account) (c : P.Cluster) (w : P.World)
      → NamesOnly c w
      → inst.spec.type ≢ account_type_org
      → (x : Chosen P inst c w) → x.type_name ≡ get_workspace_type_name org.name inst.spec.type
  chosen_of_parent inst c w names not_org x = elim x.choice [
    | inl (is_org, _) ↦ absurd (not_org is_org)
    | inr (info, _, read, _, n) ↦
        x.named
        ∙ ap (λ m. get_workspace_type_name m inst.spec.type)
            (n ∙ ap (λ l. l.name) (names info read))
  ]

  -- What the Workspace subroutine creates below a cluster whose AccountInfo names the organization.
  pub workspace_of_parent :
      WorkspaceLaws P
      → OwnerLaws P
      → (ctx : Context) (inst : Ref Account) (s : State P) (id : String) (c : P.Cluster)
      → ctx.cluster ≡ some id
      → P.get_cluster id s.world ≡ ok c
      → NamesOnly c s.world
      → inst.val.spec.type ≢ account_type_org
      → (process P ctx (account inst) s).0 ≡ returns done
      → (ws : Workspace) × (P.workspaces.get c inst.val.meta.name
            (process P ctx (account inst) s).1.world
          ≡ ok ws)
        × (ws.spec.type
            ≡ some (record {
              name = get_workspace_type_name org.name inst.val.spec.type;
              path = orgs_workspace_path;
            }))
  workspace_of_parent W O ctx inst s id c in_context found names not_org d =
      let (p, w) = process-Created P ctx inst s W O d in
      let e : p.cluster ≡ c = ground (arith, p.in_context, in_context, p.found, found) in
      let name = chosen_of_parent inst.val p.cluster s.world (rw e names) not_org p.chosen in
      (w.workspace, rw e at w.read, rw name at w.type)

module _ (P : Platform) (server_ca : String) (L : AccountInfoLaws P) (org : AccountLocation) where
  lineage_names :
      (c : P.Cluster) {cs : List P.Cluster} (w : P.World)
      → Hierarchy P server_ca org cs w
      → Among P server_ca c cs
      → NamesOnly P org c w
  lineage_names c {cs} w h among info read =
      let (above, read', o) =
        Among-BelongsTo P server_ca org w c cs among (Hierarchy-BelongsTo P server_ca L org h) in
      ground (arith, read, read', o)

  -- However deep an account that is no organization lives in the hierarchy below an organization,
  -- if the Workspace subroutine succeeds for it, its workspace can be read in its cluster, with the
  -- workspace type that belongs to the organization at the root.
  pub workspace_of_lineage :
      WorkspaceLaws P
      → OwnerLaws P
      → (ctx : Context) (inst : Ref Account) {cs : List P.Cluster} (s : State P)
      → Hierarchy P server_ca org cs s.world
      → (id : String) (c : P.Cluster) → ctx.cluster ≡ some id
      → P.get_cluster id s.world ≡ ok c
      → Among P server_ca c cs
      → inst.val.spec.type ≢ account_type_org
      → (process P ctx (account inst) s).0 ≡ returns done
      → (ws : Workspace) × (P.workspaces.get c inst.val.meta.name
            (process P ctx (account inst) s).1.world
          ≡ ok ws)
        × (ws.spec.type
            ≡ some (record {
              name = get_workspace_type_name org.name inst.val.spec.type;
              path = orgs_workspace_path;
            }))
  workspace_of_lineage W O ctx inst s h id c in_context found among =
      workspace_of_parent P org W O ctx inst s id c in_context found
        (lineage_names c s.world h among)
