-- ===== src/Examples/Names.antt =====
-- Names of workspace types, and the path of a workspace.
use account_operator.Base.{String, some, ◌≡◌, refl, ◌↔◌, ◌⊎◌, ◌<>◌, true, length, ◌<◌}
use account_operator.Base.Text.{split}
use account_operator.Platform.{ok, err}
use account_operator.Exec.{failed}
use account_operator.Subroutines.ManageAccountInfo.{retrieve_current_workspace_path}
use account_operator.Subroutines.ManageAccountInfo.Address.{
  IsAddress, IsBlank, retrieve_iff, retrieve_bounds,
}
use account_operator.Subroutines.Util.{get_workspace_type_name}
use account_operator.Subroutines.Util.Clashes.{get_workspace_type_name-eq_iff}
use account_operator.Subroutines.WorkspaceType.Isolation.{
  org, account, generated, permits, permits_iff,
}
use account_operator.Subroutines.WorkspaceType.{org_label, entries, mutate_workspace_type}
use account_operator.Subroutines.WorkspaceType.Labels.{lookup-mutate}
use account_operator.Base.Dict.{lookup}
use account_operator.Examples.{workspace_of, ready_type}

-- An account "acme" of the type "eu-org" clashes with an organization "acme-eu".
get_workspace_type_name-eq_iff_example :
    (get_workspace_type_name "acme-eu" "org" ≡ get_workspace_type_name "acme" "eu-org") ↔ (
      (◌≡◌ {A = String} "acme-eu" "acme" × ◌≡◌ {A = String} "org" "eu-org")
      ⊎ ((p : String) × (◌≡◌ {A = String} "eu-org" (p <> ("-" <> "org")))
          × (◌≡◌ {A = String} "acme-eu" ("acme" <> ("-" <> p)))))
get_workspace_type_name-eq_iff_example =
    get_workspace_type_name-eq_iff "acme-eu" "acme" "org" "eu-org" (refl, (refl, (refl, tt)))

permits_iff_example :
    (permits (generated org "acme") (generated account "other") ≡ true)
    ↔ (◌≡◌ {A = String} "acme" "other" × (account ≡ account))
permits_iff_example = permits_iff org account "acme" "other"

retrieve_iff_example :
    (retrieve_current_workspace_path
        (workspace_of "acme" "c1" "https://kcp/clusters/root:orgs:acme")
      ≡ ok ("root:orgs:acme", "https://kcp/clusters/root:orgs:acme"))
    ↔ (◌≡◌ {A = String} "https://kcp/clusters/root:orgs:acme" "https://kcp/clusters/root:orgs:acme"
        × IsAddress "https://kcp/clusters/root:orgs:acme" "root:orgs:acme")
retrieve_iff_example =
    retrieve_iff (workspace_of "acme" "c1" "https://kcp/clusters/root:orgs:acme") "root:orgs:acme"
      "https://kcp/clusters/root:orgs:acme"

retrieve_bounds_example :
    let ws = workspace_of "acme" "c1" "https://kcp/clusters/root:orgs:acme" in
    ((path : String) × (retrieve_current_workspace_path ws ≡ ok (path, ws.spec.url)))
    ⊎ ((retrieve_current_workspace_path ws ≡ err (failed "workspace URL is empty"))
        × ((ws.spec.url ≡ "") ⊎ IsBlank ws.spec.url))
    ⊎ ((retrieve_current_workspace_path ws ≡ err (failed "workspace URL is invalid"))
        × (length (split b'/' ws.spec.url) < 3))
retrieve_bounds_example =
    retrieve_bounds (workspace_of "acme" "c1" "https://kcp/clusters/root:orgs:acme")

acme_labelled :
    lookup
      (entries (mutate_workspace_type (generated org "acme") (ready_type "acme-org")).meta.labels)
      org_label
    ≡ some "acme"
acme_labelled = lookup-mutate org "acme" (ready_type "acme-org") org_label
