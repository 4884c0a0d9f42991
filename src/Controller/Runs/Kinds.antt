-- ===== src/Controller/Runs/Kinds.antt =====
-- Writes of one kind of object do not change what is read of another kind.
use account_operator.Base.{String}
use account_operator.Kcp.{new_workspace, new_workspace_type}
use account_operator.Platform.{Platform, Client}
use account_operator.Platform.Laws.{Apart}
use account_operator.Subroutines.ManageAccountInfo.Effects.{BlindToInfos}
use account_operator.Subroutines.Workspace.Effects.{BlindToWorkspace}
use account_operator.Subroutines.WorkspaceType.Effects.{BlindToType}

module _ (P : Platform) where
  pub Apart-BlindToType :
      {B : Type 0} (other : Client P.World P.ApiError P.Cluster B)
      → Apart P.workspace_types other
      → (c : P.Cluster) (n m : String) → BlindToType P (λ w. other.get c n w) m
  Apart-BlindToType other A c n m = record {
    patched = λ d f w. A.get-patch d (new_workspace_type m) f w c n;
    deleted = λ d w. A.get-delete d m w c n;
  }

  pub Apart-BlindToInfos :
      {B : Type 0} (other : Client P.World P.ApiError P.Cluster B)
      → Apart P.account_infos other
      → (c : P.Cluster) (n : String) → BlindToInfos P (λ w. other.get c n w)
  Apart-BlindToInfos other A c n = record {
    patched = λ d f w. A.get-patch d _ f w c n;
    updated = λ d f w. A.get-update d _ f w c n;
  }

  pub Apart-BlindToWorkspace :
      {B : Type 0} (other : Client P.World P.ApiError P.Cluster B)
      → Apart P.workspaces other
      → (c : P.Cluster) (n m : String) → BlindToWorkspace P (λ w. other.get c n w) m
  Apart-BlindToWorkspace other A c n m = record {
    updated = λ d f w. A.get-update d (new_workspace m) f w c n;
    deleted = λ d w. A.get-delete d m w c n;
  }
