-- ===== src/Metrics.antt =====
-- internal/metrics/metrics.go: the Prometheus collectors, and the samples that the code records.
use account_operator.Base.{ℕ, String, Option, none, some, List, [], ◌∷◌}

pub data Metric : Type 0 where
  accounts_reconciled : Metric
  webhook_validations : Metric
  workspace_ready_duration : Metric
  workspace_type_operations : Metric
  org_provisioning_duration : Metric

-- The options of `NewCounterVec` and `NewHistogramVec`. Counters have no buckets.
pub record MetricOpts : Type 0 where
  pub name : String
  pub help : String
  pub buckets : Option (List ℕ)
  pub labels : List String

abbrev pub duration_buckets : List ℕ
duration_buckets = 1 ∷ 5 ∷ 10 ∷ 30 ∷ 60 ∷ 120 ∷ 300 ∷ []

abbrev pub opts : Metric → MetricOpts
opts accounts_reconciled = record {
  name = "account_operator_accounts_reconciled_total";
  help = "Total number of Account reconcile calls by type and result.";
  buckets = none;
  labels = "type" ∷ "result" ∷ [];
}
opts webhook_validations = record {
  name = "account_operator_webhook_validations_total";
  help = "Total number of Account webhook validation requests.";
  buckets = none;
  labels = "operation" ∷ "result" ∷ "account_type" ∷ [];
}
opts workspace_ready_duration = record {
  name = "account_operator_workspace_ready_duration_seconds";
  help = "Time from Account creation to Workspace reaching Ready phase.";
  buckets = some duration_buckets;
  labels = "type" ∷ [];
}
opts workspace_type_operations = record {
  name = "account_operator_workspacetype_operations_total";
  help = "Total number of WorkspaceType create or update operations performed for organizations.";
  buckets = none;
  labels = "operation" ∷ "wst_kind" ∷ [];
}
opts org_provisioning_duration = record {
  name = "account_operator_org_provisioning_duration_seconds";
  help = "Time from organization Account creation to its AccountInfo being written.";
  buckets = some duration_buckets;
  labels = [];
}

-- What `init` registers.
abbrev pub registered : List Metric
registered =
    accounts_reconciled ∷ webhook_validations ∷ workspace_ready_duration ∷ workspace_type_operations
    ∷ org_provisioning_duration ∷ []

-- A recorded sample, with the values of the labels: `Inc()` or `Observe(x)`.
pub data Sample (F : Type 0) : Type 0 where
  inc : Metric → List String → Sample F
  observe : Metric → List String → F → Sample F
