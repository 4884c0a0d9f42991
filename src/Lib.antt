-- ===== src/Lib.antt =====
-- A model of the account operator of platform-mesh, and what holds of it.
--
-- The operator reconciles Account resources in the logical clusters of kcp. Its controller runs
-- four subroutines for each account: WorkspaceType stores two workspace types for an organization,
-- Workspace creates a workspace of such a type, ManageAccountInfo writes an AccountInfo into the
-- workspace's cluster, and WorkspaceReady waits for the workspace. When an account is deleted,
-- Workspace and WorkspaceType finalize it, and FinalizeAccountInfo keeps an AccountInfo as long as
-- accounts stand in its cluster. A webhook admits accounts.
--
-- Files, and the code that they model:
--   Api/Account, Api/AccountInfo   api/v1alpha1/account_types.go, account_info_types.go
--   Api/Scheme                     api/v1alpha1/groupversion_info.go, and the two calls of Register
--   Api/Webhook                    api/v1alpha1/account_webhook.go: Default, ValidateCreate,
--                                  ValidateUpdate, ValidateDelete, the setup
--   Api/DeepCopy                   api/v1alpha1/zz_generated.deepcopy.go: Into has DeepCopyInto, Copy
--                                  has DeepCopy and DeepCopyObject
--   ClusteredName                  pkg/clusteredname/clusteredname.go
--   Subroutines/Util               pkg/subroutines/util/util.go: GetWorkspaceTypeName
--   Subroutines/WorkspaceType      pkg/subroutines/workspacetype/workspace_type.go
--   Subroutines/Workspace          pkg/subroutines/workspace/workspace.go
--   Subroutines/ManageAccountInfo  pkg/subroutines/manageaccountinfo/manage_accountinfo.go
--   Subroutines/WorkspaceReady     pkg/subroutines/workspaceready/workspaceready.go
--   Subroutines/FinalizeAccountInfo
--                                  pkg/subroutines/finalizeaccountinfo/finalize_accountinfo.go
--   Subroutines/Construct          New of each subroutine
--   Subroutines/Contract           the rate limiters of the subroutines, and panics
--   Subroutines/Agreement          WorkspaceType and Workspace together
--   Subroutines/Lineage            ManageAccountInfo and Workspace together
--   Subroutines/Rollout            the four subroutines of an account, one after the other
--   Metrics                        internal/metrics/metrics.go
--   Config, Config/Flags           internal/config/config.go: the settings, their defaults, AddFlags
--   Controller                     internal/controller/account_controller.go and
--                                  accountinfo_controller.go
--   Controller/Dispatch            the interfaces by which the lifecycle library calls a subroutine
--   Controller/Effects, Controller/Runs
--                                  what a handler can change; runs of any handlers, one by one, as
--                                  the two controllers may interleave them
--   Controller/Deletion            the finalizers of the account controller, up to their end
--   Operator, Operator/Run         cmd/operator.go: the lists that the webhook is given; RunController
--   Operator/Root                  cmd/root.go: the global variables, init, initLog, Execute
--   Base, Meta, Kcp                shared helpers, and the parts of Kubernetes and kcp objects
--   Exec                           the effects of a Go method
--   Platform                       the libraries that the operator calls, and their laws
--   Examples                       concrete runs
--
-- A method `Process` or `Finalize` is an action of `Exec`: from a state of the world outside, the
-- rate limiter and the recorded samples to a result, an error or a panic, with the state that it
-- leaves, the effects before an error included. Its names are those of the code in snake case. A
-- function that the code hands to CreateOrUpdate or CreateOrPatch is a function from the object
-- before to the object after. An object that the lifecycle hands over is a `Ref`, an address with
-- the object, since the rate limiters tell accounts apart by their addresses.
--
-- The API servers, the manager, controllerutil, the rate limiter, the conditions helper and the
-- clock are one parameter, the record `Platform`. What is assumed of it stands in Platform/Laws: a
-- write that succeeds stores what the mutation makes of the object that was there, or of the given
-- one, and one that fails stores the same or nothing; writes and deletions at one name leave the
-- others and the other kinds alone, a deletion that succeeds leaves an object that is absent or
-- being deleted, and an owner reference is not added twice. What a failing write stores is assumed
-- of AccountInfos only, and only where a theorem asks for it. Every call may fail. Platform/Memory
-- is a platform that meets the laws. Times are nanoseconds. No definition needs fuel.
-- The spec of a workspace type holds, beside the fields that the operator sets and its
-- authentication configurations, the fields that it never names, as texts (`other_fields`).
--
-- A part of memory that is copied is a value whose pointers are addresses with what stands there
-- (Api/DeepCopy/Layout); `new` and `make` take the next unused address. `RunController` is the list
-- of the calls of libraries that it makes, with its end: it returns, the process exits, or it
-- panics. The answers to the calls are a parameter, the record `Libraries`; the lifecycle library,
-- the rate limiters and the copies of types of other packages are parameters, too. So are the scheme
-- builder, cobra and the logger for what runs before it (`RootLibraries`).
--
-- Not modelled: logging; the lifecycle library, which calls the subroutines and stores conditions;
-- the API servers between two runs, but for what a theorem assumes of them; what the controller
-- builder, the webhook server and the manager do with their options; the parsing of the command
-- line by cobra; main.go, which calls Execute; the mocks.
pub mod Base
pub mod Meta
pub mod Api
pub mod Kcp
pub mod Platform
pub mod Metrics
pub mod Exec
pub mod ClusteredName
pub mod Subroutines
pub mod Config
pub mod Controller
pub mod Operator
pub mod Examples
