-- ===== src/Subroutines/WorkspaceReady.antt =====
-- pkg/subroutines/workspaceready/workspaceready.go
pub mod Ready
use account_operator.Base.{String, not, ◌==◌, [], ◌∷◌, if◌then◌else◌}
use account_operator.Platform.{Platform, Context}
use account_operator.Metrics.{workspace_ready_duration}
use account_operator.ClusteredName.{Object, as_account, must_get_clustered_name}
use account_operator.Exec.{
  Exec, SubroutineResult, done, ◌>>=◌, ◌>>◌, pure, reads, lift_wrapped, requeue, forget,
  observe_histogram,
}

abbrev pub get_name : String
get_name = "WorkspaceReadySubroutine"

module _ (P : Platform) where
  unfoldable pub process : Context → Object → Exec P SubroutineResult
  unfolding must_get_clustered_name
  process ctx obj = do
    inst ← as_account obj
    cn ← must_get_clustered_name ctx obj
    cluster ← lift_wrapped "getting cluster" (← reads (P.get_cluster cn.cluster_id))
    ws ←
        lift_wrapped "getting Account's Workspace"
          (← reads (P.workspaces.get cluster inst.val.meta.name))
    if not (ws.phase == P.phase_ready) then requeue inst.ptr "Workspace not ready yet" else do
      forget inst.ptr
      duration ← reads (P.seconds_since inst.val.meta.creation_timestamp)
      observe_histogram workspace_ready_duration (inst.val.spec.type ∷ []) duration
      pure done
