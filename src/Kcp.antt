-- ===== src/Kcp.antt =====
-- The workspaces and workspace types of kcp (github.com/kcp-dev/sdk): the fields that the operator
-- or its tests name, and for the spec of a workspace type what else it may hold.
use account_operator.Base.{String, Option, none, List, []}
use account_operator.Base.Dict.{Dict}
use account_operator.Meta.{ObjectMeta, Condition, named}

-- `kcptenancyv1alpha.WorkspaceTypeReference`
pub record WorkspaceTypeReference : Type 0 where
  pub name : String
  pub path : String

pub record WorkspaceSpec : Type 0 where
  pub type : Option WorkspaceTypeReference
  pub cluster : String
  pub url : String

pub record Workspace : Type 0 where
  pub meta : ObjectMeta
  pub spec : WorkspaceSpec
  pub phase : String

-- `&Workspace{ObjectMeta: ObjectMeta{Name: name}}`
abbrev pub new_workspace : String → Workspace
new_workspace n = record {
  meta = named n;
  spec = record { type = none; cluster = ""; url = "" };
  phase = "";
}

-- `kcptenancyv1alpha.AuthenticationConfigurationReference`
pub record AuthenticationConfigurationReference : Type 0 where
  pub name : String

-- `other_fields` are the fields of which the operator never speaks, by their names, each as it is
-- written; a field without an entry has its zero value.
pub record WorkspaceTypeSpec : Type 0 where
  pub extend_with : List WorkspaceTypeReference
  pub default_child_workspace_type : Option WorkspaceTypeReference
  pub limit_allowed_parents : Option (List WorkspaceTypeReference)
  pub limit_allowed_children : Option (List WorkspaceTypeReference)
  pub authentication_configurations : List AuthenticationConfigurationReference
  pub other_fields : Dict String

pub record WorkspaceType : Type 0 where
  pub meta : ObjectMeta
  pub spec : WorkspaceTypeSpec
  pub conditions : List Condition

-- `&WorkspaceType{ObjectMeta: ObjectMeta{Name: name}}`
abbrev pub new_workspace_type : String → WorkspaceType
new_workspace_type n = record {
  meta = named n;
  spec = record {
    extend_with = [];
    default_child_workspace_type = none;
    limit_allowed_parents = none;
    limit_allowed_children = none;
    authentication_configurations = [];
    other_fields = [];
  };
  conditions = [];
}
