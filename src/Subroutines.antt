-- ===== src/Subroutines.antt =====
-- pkg/subroutines: the steps by which the controllers reconcile and finalize their objects.
pub mod Util
pub mod WorkspaceType
pub mod Workspace
pub mod ManageAccountInfo
pub mod WorkspaceReady
pub mod FinalizeAccountInfo
pub mod Contract
pub mod Agreement
pub mod Construct
pub mod Rollout
pub mod Lineage
