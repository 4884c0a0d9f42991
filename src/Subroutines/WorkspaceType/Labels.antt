-- ===== src/Subroutines/WorkspaceType/Labels.antt =====
-- The labels of the stored workspace types, and storing them again.
use account_operator.Base.{String, ◌≡◌, ◌==◌, some, arith, if◌then◌else◌}
use account_operator.Base.Dict.{lookup, copy, lookup-assign, assign_idem}
use account_operator.Kcp.{WorkspaceType}
use account_operator.Subroutines.WorkspaceType.{
  org_label, entries, mutate_workspace_type, generate_org_workspace_type,
  generate_account_workspace_type,
}
use account_operator.Subroutines.WorkspaceType.Isolation.{Kind, org, account, generated}

-- A stored workspace type has the label of its organization, and each of its other labels is what
-- it was before.
pub lookup-mutate :
    (k : Kind) (name : String) (wst : WorkspaceType) (label : String)
    → lookup (entries (mutate_workspace_type (generated k name) wst).meta.labels) label
      ≡ (if org_label == label then some name else lookup (entries wst.meta.labels) label)
unfolding copy generate_org_workspace_type generate_account_workspace_type
lookup-mutate org name wst label = lookup-assign (entries wst.meta.labels) org_label label name
lookup-mutate account name wst label = lookup-assign (entries wst.meta.labels) org_label label name

-- Storing a generated type over a workspace type on which it has been stored changes nothing.
pub mutate_workspace_type_idem :
    (k : Kind) (name : String) (wst : WorkspaceType)
    → let stored = mutate_workspace_type (generated k name) wst in
      mutate_workspace_type (generated k name) stored ≡ stored
unfolding copy generate_org_workspace_type generate_account_workspace_type
mutate_workspace_type_idem org name wst =
    ground (arith, assign_idem (entries wst.meta.labels) org_label name)
mutate_workspace_type_idem account name wst =
    ground (arith, assign_idem (entries wst.meta.labels) org_label name)
