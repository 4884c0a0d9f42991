-- ===== src/Subroutines/WorkspaceReady/Ready.antt =====
-- When WorkspaceReady succeeds.
use account_operator.Base.{String, ◌≡◌, ◌↔◌, inl, inr, [], ◌∷◌, some, arith, Option-cases, eq_iff}
use account_operator.Meta.{Ref}
use account_operator.Api.Account.{Account}
use account_operator.Kcp.{Workspace}
use account_operator.Platform.{Platform, Context, ok, Result-cases}
use account_operator.Metrics.{observe, workspace_ready_duration}
use account_operator.ClusteredName.{account}
use account_operator.Exec.{State, returns, done}
use account_operator.Subroutines.WorkspaceReady.{process}

module _ (P : Platform) (ctx : Context) (inst : Ref Account) (s : State P) where
  -- The account's workspace, in the cluster of the context, as it is read now.
  pub record ReadyWorkspace : Type 0 where
    pub cluster_id : String
    pub in_context : ctx.cluster ≡ some cluster_id
    pub cluster : P.Cluster
    pub found : P.get_cluster cluster_id s.world ≡ ok cluster
    pub workspace : Workspace
    pub read : P.workspaces.get cluster inst.val.meta.name s.world ≡ ok workspace
    pub phase : workspace.phase ≡ P.phase_ready

  ready_of_done : (process P ctx (account inst) s).0 ≡ returns done → ReadyWorkspace
  unfolding process
  ready_of_done h = elim (Option-cases ctx.cluster) [
    | inl e ↦ absurd (ground arith)
    | inr (id, e) ↦ elim (Result-cases (P.get_cluster id s.world)) [
      | inr (x, e2) ↦ absurd (ground arith)
      | inl (c, e2) ↦ elim (Result-cases (P.workspaces.get c inst.val.meta.name s.world)) [
        | inr (x, e3) ↦ absurd (ground arith)
        | inl (ws, e3) ↦ record {
          cluster_id = id;
          in_context = e;
          cluster = c;
          found = e2;
          workspace = ws;
          read = e3;
          phase = ground (arith, eq_iff ws.phase P.phase_ready);
        }
      ]
    ]
  ]

  done_of_ready : (r : ReadyWorkspace) → (process P ctx (account inst) s).0 ≡ returns done
  unfolding process
  done_of_ready r =
      let e = r.in_context in
      let e2 = r.found in
      let e3 = r.read in let e4 = r.phase in ground (arith, eq_iff r.workspace.phase P.phase_ready)

  -- The run succeeds exactly where the account's workspace can be read in the cluster of the
  -- context and its phase is "Ready".
  pub process-ReadyWorkspace : ((process P ctx (account inst) s).0 ≡ returns done) ↔ ReadyWorkspace
  process-ReadyWorkspace = (ready_of_done, done_of_ready)

  -- A run that succeeds forgets the account in the rate limiter and records one sample, the time
  -- since the account's creation under the account's type.
  pub process_observed :
      (process P ctx (account inst) s).0 ≡ returns done
      → (process P ctx (account inst) s).1 ≡ record {
        world = s.world;
        limiter = P.forget inst.ptr s.limiter;
        samples =
            observe workspace_ready_duration
              (inst.val.spec.type ∷ [])
              (P.seconds_since inst.val.meta.creation_timestamp s.world)
            ∷ s.samples;
      }
  unfolding process
  process_observed h = ground arith
