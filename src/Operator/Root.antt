-- ===== src/Operator/Root.antt =====
-- cmd/root.go: what happens before cobra runs the operator's command, and how the program ends when
-- cobra returns.
pub mod Init
use account_operator.Base.{String, Bool, Option, none, some, List, [], ◌∷◌}
use account_operator.Api.Scheme.{Builder, scheme_builder}
use account_operator.Config.{OperatorConfig, new_operator_config}
use account_operator.Config.Flags.{Flag, add_flags}
use account_operator.Operator.Boot.{End, returned, exited, panicked}

-- What `AddToScheme` is called on: the operator's own builder, and three API groups of kcp.
pub data Group (B : Type 0) : Type 0 where
  own : B → Group B
  kcp_apis kcp_core kcp_tenancy : Group B

-- A command of cobra: `Use` and `Short`.
pub record Command : Type 0 where
  pub usage : String
  pub short : String

abbrev pub root_cmd : Command
root_cmd = record { usage = "account-operator"; short = "operator to reconcile Accounts" }

-- It runs `RunController`.
abbrev pub operator_cmd : Command
operator_cmd = record { usage = "operator"; short = "operator to reconcile Accounts" }

-- The settings of the logger that the command line can change.
pub record LogConfig : Type 0 where
  pub level : String
  pub no_json : Bool

pub record RootLibraries : Type 1 where
  pub E : Type 0
  pub builder : Builder
  pub add_to_scheme : Group builder.Builder → Option E
  -- `CommonServiceConfig`, its defaults and the logger's part of it
  pub Common : Type 0
  pub new_default_config : Common
  pub log_config : Common → LogConfig
  pub new_logger : LogConfig → Option E
  pub error_text : E → String

pub data Step (lib : RootLibraries) : Type 0 where
  add_to_scheme : Group lib.builder.Builder → Step lib
  -- `rootCmd.AddCommand(operatorCmd)`
  add_command : Command → Step lib
  -- the flags of the root command, and those of the operator's
  add_common_flags : lib.Common → Step lib
  add_operator_flags : List Flag → Step lib
  -- `cobra.OnInitialize(initLog)`
  on_initialize : Step lib
  set_logger : Step lib

-- The global variables that `init` sets.
pub record Globals (lib : RootLibraries) : Type 0 where
  pub default_cfg : lib.Common
  pub operator_cfg : OperatorConfig

module _ (lib : RootLibraries) where
  -- Every group is added under `utilruntime.Must`, which panics with the error.
  abbrev pub must_add :
      List (Group lib.builder.Builder) → List (Step lib) → Option lib.E × List (Step lib)
  must_add [] steps = (none, steps)
  must_add (g ∷ gs) steps = elim (lib.add_to_scheme g) [
    | some e ↦ (some e, add_to_scheme g ∷ [])
    | none ↦ let (r, rest) = must_add gs steps in (r, add_to_scheme g ∷ rest)
  ]

  abbrev pub groups : List (Group lib.builder.Builder)
  groups = own (scheme_builder lib.builder) ∷ kcp_apis ∷ kcp_core ∷ kcp_tenancy ∷ []

  abbrev pub globals : Globals lib
  globals = record { default_cfg = lib.new_default_config; operator_cfg = new_operator_config }

  -- `init`: the error that it panics with, and what it has done.
  unfoldable pub init : Option lib.E × List (Step lib)
  init = must_add groups (
      add_command operator_cmd
      ∷ add_common_flags globals.default_cfg
      ∷ add_operator_flags (add_flags globals.operator_cfg)
      ∷ on_initialize
      ∷ [])

  -- `initLog`, when cobra has parsed the command line.
  unfoldable pub init_log : lib.Common → Option lib.E × List (Step lib)
  init_log common = elim (lib.new_logger (lib.log_config common)) [
    | some e ↦ (some e, [])
    | none ↦ (none, set_logger ∷ [])
  ]

  -- `Execute`, by what cobra's `Execute` returns.
  unfoldable pub execute : Option lib.E → End
  execute none = returned
  execute (some e) = exited (lib.error_text e)
