-- ===== src/Subroutines/WorkspaceType/Tenants.antt =====
-- The workspace types of two organizations.
use account_operator.Base.{String, refl, ◌≢◌, inl, inr}
use account_operator.Api.Account.{AccountType, account_type_org, account_type_account}
use account_operator.Kcp.{WorkspaceType, new_workspace_type}
use account_operator.Platform.{Platform, Result}
use account_operator.Platform.Laws.{WorkspaceTypeLaws, kept_elsewhere}
use account_operator.Subroutines.Util.{get_workspace_type_name}
use account_operator.Subroutines.Util.Names.{IsKnown, get_workspace_type_name_injective}
use account_operator.Subroutines.WorkspaceType.Effects.{BlindToType, BlindToTypes}

module _ (P : Platform) (c : P.Cluster) (n : String) where
  abbrev pub read : P.World → Result P.ApiError WorkspaceType
  read w = P.workspace_types.get c n w

  other_name : WorkspaceTypeLaws P → (m : String) → m ≢ n → BlindToType P read m
  other_name L m differ = record {
    patched =
        λ d f w. kept_elsewhere differ (L.get-patch_elsewhere d (new_workspace_type m) f w c n);
    deleted = λ d w. kept_elsewhere differ (L.get-delete_elsewhere d m w c n);
  }

module _ (P : Platform) (L : WorkspaceTypeLaws P) (c : P.Cluster) where
  -- The workspace types of one organization are not those of another.
  pub other_types :
      (a b : String) (t : AccountType)
      → IsKnown t
      → b ≢ a
      → BlindToTypes P (read P c (get_workspace_type_name a t)) b
  other_types a b t known differ = (
    other_name P c (get_workspace_type_name a t) L (get_workspace_type_name b account_type_org)
        (λ h.
          differ (get_workspace_type_name_injective b a account_type_org t (inl refl) known h).0),
    other_name P c (get_workspace_type_name a t) L (get_workspace_type_name b account_type_account)
        (λ h.
          differ
            (get_workspace_type_name_injective b a account_type_account t (inr refl) known h).0),
  )
