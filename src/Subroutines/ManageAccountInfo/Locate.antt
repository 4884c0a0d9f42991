-- ===== src/Subroutines/ManageAccountInfo/Locate.antt =====
-- Where `Process` of ManageAccountInfo has found the account, if it comes so far.
use account_operator.Base.{
  ◌≢◌, ◌==◌, Bool-cases, String, ◌≡◌, ◌⊎◌, inl, inr, some, arith, eq_iff, Option-cases,
}
use account_operator.Meta.{Ref}
use account_operator.Api.Account.{Account}
use account_operator.Kcp.{Workspace}
use account_operator.Platform.{Platform, Context, ok, Result-cases}
use account_operator.ClusteredName.{account}
use account_operator.Exec.{State, returns, done}
use account_operator.Subroutines.ManageAccountInfo.{process, retrieve_current_workspace_path}

module _ (P : Platform) (server_ca : String) (ctx : Context) (inst : Ref Account)
    (s : State P) where
  pub record Located : Type 0 where
    pub cluster_id : String
    pub in_context : ctx.cluster ≡ some cluster_id
    pub cluster : P.Cluster
    pub found : P.get_cluster cluster_id s.world ≡ ok cluster
    pub workspace : Workspace
    pub owned : P.workspaces.get cluster inst.val.meta.name s.world ≡ ok workspace
    pub phase : (workspace.phase ≡ P.phase_initializing) ⊎ (workspace.phase ≡ P.phase_ready)
    pub path : String
    pub url : String
    pub addressed : retrieve_current_workspace_path workspace ≡ ok (path, url)
    pub account_cluster : P.Cluster
    pub reached : P.get_cluster workspace.spec.cluster s.world ≡ ok account_cluster

  -- A run that does not come so far changes nothing and does not succeed.
  abbrev pub Stops : Type 0
  Stops =
      ((process P server_ca ctx (account inst) s).1.world ≡ s.world)
      × ((process P server_ca ctx (account inst) s).0 ≢ returns done)

  located_in :
      (id : String) (c : P.Cluster) (ws : Workspace)
      → ctx.cluster ≡ some id
      → P.get_cluster id s.world ≡ ok c
      → P.workspaces.get c inst.val.meta.name s.world ≡ ok ws
      → (ws.phase ≡ P.phase_initializing) ⊎ (ws.phase ≡ P.phase_ready)
      → Stops ⊎ Located
  unfolding process
  located_in id c ws e e2 e3 phase = elim (Result-cases (retrieve_current_workspace_path ws)) [
    | inr (x, e4) ↦ inl (
      ground (arith, phase, eq_iff ws.phase P.phase_initializing, eq_iff ws.phase P.phase_ready),
      λ h. ground arith,
    )
    | inl ((path, url), e4) ↦ elim (Result-cases (P.get_cluster ws.spec.cluster s.world)) [
      | inr (x, e5) ↦ inl (
        ground (arith, phase, eq_iff ws.phase P.phase_initializing, eq_iff ws.phase P.phase_ready),
        λ h. ground arith,
      )
      | inl (c', e5) ↦ inr (record {
        cluster_id = id;
        in_context = e;
        cluster = c;
        found = e2;
        workspace = ws;
        owned = e3;
        phase = phase;
        path = path;
        url = url;
        addressed = e4;
        account_cluster = c';
        reached = e5;
      })
    ]
  ]

  pub process-cases : Stops ⊎ Located
  unfolding process
  process-cases = elim (Option-cases ctx.cluster) [
    | inl e ↦ inl (ground arith, λ h. ground arith)
    | inr (id, e) ↦ elim (Result-cases (P.get_cluster id s.world)) [
      | inr (x, e2) ↦ inl (ground arith, λ h. ground arith)
      | inl (c, e2) ↦ elim (Result-cases (P.workspaces.get c inst.val.meta.name s.world)) [
        | inr (x, e3) ↦ inl (ground arith, λ h. ground arith)
        | inl (ws, e3) ↦ elim (Bool-cases (ws.phase == P.phase_initializing)) [
          | inl i ↦ located_in id c ws e e2 e3 (inl ((eq_iff _ _).0 i))
          | inr i ↦ elim (Bool-cases (ws.phase == P.phase_ready)) [
            | inl r ↦ located_in id c ws e e2 e3 (inr ((eq_iff _ _).0 r))
            | inr r ↦ inl (ground arith, λ h. ground arith)
          ]
        ]
      ]
    ]
  ]

  pub process-Located : (process P server_ca ctx (account inst) s).0 ≡ returns done → Located
  process-Located h = elim process-cases [ inl stops ↦ absurd (stops.1 h) | inr l ↦ l ]
