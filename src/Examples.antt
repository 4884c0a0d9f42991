-- ===== src/Examples.antt =====
-- Concrete runs on the platform that keeps its objects in memory: an organization "acme" and an
-- account "team" below it.
mod Provisioning
mod Informing
mod Finalizing
mod Admission
mod Names
mod Copies
mod Operating
mod Handling
mod Running
mod Rooting
mod Again
mod Lineage
mod Rollout
use account_operator.Base.{String, none, some, [], ◌∷◌}
use account_operator.Meta.{Ref, ObjectMeta, named}
use account_operator.Api.Account.{
  Account, AccountType, account_type_org, account_type_account, plain_account,
}
use account_operator.Api.AccountInfo.{AccountInfo, AccountLocation, empty_spec}
use account_operator.Kcp.{Workspace, WorkspaceType, new_workspace, new_workspace_type}
use account_operator.Platform.{Context}
use account_operator.Platform.Memory.{memory, MemoryWorld}
use account_operator.Exec.{State}

abbrev pub acme : Ref Account
acme = record { ptr = 1; val = plain_account "acme" account_type_org }

abbrev pub team : Ref Account
team = record { ptr = 2; val = plain_account "team" account_type_account }

abbrev pub at : String → Context
at c = record { cluster = some c; username = some "jane" }

abbrev pub state : MemoryWorld → State memory
state w = record { world = w; limiter = []; samples = [] }

abbrev pub workspace_of : String → String → String → Workspace
workspace_of name cluster url = record (new_workspace name) {
  spec = record { type = none; cluster = cluster; url = url };
  phase = "Ready";
}

abbrev pub ready_type : String → WorkspaceType
ready_type name = record (new_workspace_type name) {
  conditions =
      record {
        type = "Ready";
        status = "True";
        observed_generation = 1;
        last_transition_time = 5;
        reason = "";
        message = "";
      }
      ∷ [];
}

-- The clusters are known, and nothing else is there.
abbrev pub empty_world : MemoryWorld
empty_world = record {
  clusters = "root:orgs" ∷ "orgs" ∷ "c1" ∷ "c2" ∷ [];
  workspaces = [];
  workspace_types = [];
  account_infos = [];
  accounts = [];
  now = 7;
}

-- The workspaces of "acme" and of "team" are there, and so are the ready workspace types.
abbrev pub ready_world : MemoryWorld
ready_world = record empty_world {
  workspaces =
      ("orgs", workspace_of "acme" "c1" "https://kcp/clusters/root:orgs:acme")
      ∷ ("c1", workspace_of "team" "c2" "https://kcp/clusters/root:orgs:acme:team")
      ∷ [];
  workspace_types =
      ("root:orgs", ready_type "acme-org") ∷ ("root:orgs", ready_type "acme-account") ∷ [];
}
