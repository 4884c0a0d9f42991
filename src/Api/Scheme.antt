-- ===== src/Api/Scheme.antt =====
-- api/v1alpha1/groupversion_info.go, and the registration of the kinds in `init` of
-- account_info_types.go and account_types.go. The builder of controller-runtime is a parameter.
use account_operator.Base.{String, List, [], ◌∷◌}

pub record GroupVersion : Type 0 where
  pub group : String
  pub version : String

abbrev pub group_version : GroupVersion
group_version = record { group = "core.platform-mesh.io"; version = "v1alpha1" }

-- The Go types of the API group that are `runtime.Object`s.
pub data Kind : Type 0 where
  account account_list account_info account_info_list : Kind

-- `scheme.Builder`: one for a group version, and `Register`.
pub record Builder : Type 1 where
  pub Builder : Type 0
  pub new_builder : GroupVersion → Builder
  pub register : List Kind → Builder → Builder

-- `SchemeBuilder`, as it is when `main` starts: Go runs the `init` functions of a package by the
-- names of their files.
unfoldable pub scheme_builder : (b : Builder) → b.Builder
scheme_builder b =
    b.register (account ∷ account_list ∷ [])
      (b.register (account_info ∷ account_info_list ∷ []) (b.new_builder group_version))
