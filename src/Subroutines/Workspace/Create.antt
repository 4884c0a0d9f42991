-- ===== src/Subroutines/Workspace/Create.antt =====
-- When the Workspace subroutine writes a workspace, and which.
use account_operator.Base.{◌≡◌, ap, ◌⊎◌, inl, inr, some}
use account_operator.Meta.{Ref}
use account_operator.Api.Account.{Account}
use account_operator.Kcp.{Workspace, new_workspace}
use account_operator.Platform.{Platform, Context, OperationResult, ok}
use account_operator.Platform.Laws.{WorkspaceLaws, OwnerLaws, StartsFrom}
use account_operator.ClusteredName.{account}
use account_operator.Exec.{State, returns, done}
use account_operator.Subroutines.Workspace.{mutate_workspace, orgs_workspace_path, process}
use account_operator.Subroutines.Workspace.Prepare.{
  TypeReady, Prepared, update, Prefix, Stops, process-Prefix, ensure-guarded,
}

module _ (P : Platform) where
  module _ (ctx : Context) (inst : Ref Account) (s : State P) where
    abbrev prepare :
        (p : Prefix P ctx inst s) → TypeReady P p.chosen.type_name s.world → Prepared P ctx inst s
    prepare p t = record {
      cluster_id = p.cluster_id;
      in_context = p.in_context;
      cluster = p.cluster;
      found = p.found;
      chosen = p.chosen;
      type_ready = t;
    }

    -- The run has made its write; if it has succeeded, so has the write.
    pub record Wrote : Type 0 where
      pub prepared : Prepared P ctx inst s
      pub world :
          (process P ctx (account inst) s).1.world
          ≡ (update P inst.val prepared.chosen.type_name prepared.cluster s.world).1
      pub success :
          (process P ctx (account inst) s).0 ≡ returns done
          → (r : OperationResult) × ((update P inst.val prepared.chosen.type_name prepared.cluster
                s.world).0
              ≡ ok r)

    pub process-Wrote : Stops P ctx inst s ⊎ Wrote
    process-Wrote = elim (process-Prefix P ctx inst s) [
      | inl stops ↦ inl stops
      | inr p ↦ elim (ensure-guarded P inst p.cluster p.chosen.type_name s) [
        | inl (same, not_done) ↦ inl (rw p.rest same, rw p.rest not_done)
        | inr (ready, world, success) ↦ inr (record {
          prepared = prepare p ready;
          world = rw p.rest world;
          success = rw p.rest success;
        })
      ]
    ]

    -- Whatever the outcome, the subroutine leaves the world as it was unless it has found the
    -- account's cluster, has settled the workspace type's name and has read that type in the
    -- cluster "root:orgs" as ready.
    pub process-Prepared :
        ((process P ctx (account inst) s).1.world ≡ s.world) ⊎ Prepared P ctx inst s
    process-Prepared = elim process-Wrote [
      | inl stops ↦ inl stops.0
      | inr wrote ↦ inr wrote.prepared
    ]

    pub record Created (p : Prepared P ctx inst s) (w' : P.World) : Type 0 where
      pub before : Workspace
      pub starts :
          StartsFrom
            (λ (a : Workspace). a.meta)
            P.is_not_found
            P.workspaces
            p.cluster
            (new_workspace inst.val.meta.name)
            s.world
            before
      pub workspace : Workspace
      pub read : P.workspaces.get p.cluster inst.val.meta.name w' ≡ ok workspace
      pub type :
          workspace.spec.type
          ≡ some (record { name = p.chosen.type_name; path = orgs_workspace_path })
      pub cluster : workspace.spec.cluster ≡ before.spec.cluster
      pub url : workspace.spec.url ≡ before.spec.url
      pub whole : mutate_workspace P inst.val p.chosen.type_name before ≡ ok workspace

    -- If the subroutine succeeds, the type was ready, and the account's workspace can be read in
    -- the account's cluster, with this type of "root:orgs", and with the cluster and the URL that
    -- it had before if it was there.
    pub process-Created :
        WorkspaceLaws P
        → OwnerLaws P
        → (process P ctx (account inst) s).0 ≡ returns done
        → (p : Prepared P ctx inst s) × Created p (process P ctx (account inst) s).1.world
    process-Created L O h = elim process-Wrote [
      | inl stops ↦ absurd (stops.1 h)
      | inr wrote ↦
          let p = wrote.prepared in
          let (r, e) = wrote.success h in
          let st = L.get-update p.cluster _ _ s.world e in
          let spec = O.spec-set_owner inst.val _ st.mutated in
          (
            p,
            record {
              before = st.start;
              starts = st.starts;
              workspace = st.stored;
              read = rw wrote.world st.read;
              type = ap (λ x. x.type) spec;
              cluster = ap (λ x. x.cluster) spec;
              url = ap (λ x. x.url) spec;
              whole = st.mutated;
            },
          )
    ]
