-- ===== src/Lib.antt =====
-- AlterShield operator: a Kubernetes operator that guards releases of deployments. A deployment
-- that is released is versioned by a webhook; a change workload stands for the release of one
-- version; the pods of the version, once they run, are checked in batches, each a change pod; the
-- publishing service is told before and after each batch, and its verdicts suspend or release the
-- deployment.
--
-- How the parts interact. The mutating webhook (Webhook, apis/apps/v1/deployment_webhook.go) writes
-- the version of a deployment into its labels. The deployment controller (Deployments,
-- controllers/deployment_controller.go, with controllers/resource/changeworkload_factory.go) makes
-- a change workload of it. The pod controller (PodController, controllers/pod_controller.go) marks
-- pods that run as finished. The change workload controller (Workloads,
-- controllers/changeworkload_controller.go, changeworkload_pod_control.go,
-- changeworkload_changepod_control.go, with controllers/resource/changepod_factory.go) makes change
-- pods when enough pods are finished, gathers the verdicts and suspends or releases the deployment.
-- The change pod controller (ChangePods, controllers/changepod_controller.go) takes a change pod
-- through its statuses and tells the publishing service (Opscloud,
-- controllers/client/opscloud_client.go), which answers to a route of the operator (Callback,
-- controllers/callback/nodecallbak_handle.go). Two loops time out what waits too long (Timeouts,
-- runnable/run_changepod_timeout_valid.go and run_changeworkload_timeout_valid.go), and one takes
-- deployments whose pods do not run back to an earlier template (Rollback,
-- runnable/run_deployment_status_vaild.go). A route tells which deployments are suspended
-- (Suspended, controllers/callback/deployment_handle.go). Routes has the table of routes, the middleware
-- around them and the handlers that only forward or answer a constant (routers/router.go); Start the loop
-- of main.go that sets everything up; Controllers what each controller is registered with; Logs the
-- settings of the logger and the cache of variables (controllers/utils/log.go, env_cache.go); Pause a
-- loop that main.go does not start (runnable/run_deployment_status_pause.go). The configuration is a
-- custom resource (OpsConfig, controllers/opsconfiginfo_controller.go, controllers/utils/recource_create.go) whose
-- values pass through channels to variables (Config, controllers/utils/config.go). Events says
-- which events each controller queues, Predicates has the label tests that they share, Utils the
-- helpers and constants of controllers/utils, Types the objects of
-- apis/app.ops.cloud.alipay.com/v1alpha1.
--
-- Above them stands Lifecycle: an abstract machine of a change pod's status, to which the change pod
-- controller, the callback and the timeout loops are related (Lifecycle/Refinement), the courses of
-- a change pod through it (Lifecycle/Courses), the way of one batch from its filling to its end
-- (Lifecycle/Completion), and a callback that comes when its change pod has been closed
-- (Lifecycle/Races). Workloads/Judged follows a workload whose pods all passed to its success;
-- Workloads/Outcomes says what a verdict is, and Workloads/Synchronized that the sync writes no other. Rollback/Choice
-- says what the tests of the rollback loop mean.
-- Deployments/Threshold goes from the percentage of the configuration to the size of a batch,
-- Deployments/Idempotence is about a second reconcile, PodController/Handover about a pod's way from its
-- controller to the controller of change workloads, Timeouts/Exact and Rollback/Exact about whole rounds of
-- the loops, call by call, and Utils/Pods/View is the quotient of the lists of
-- checked pods that forgets their order.
--
-- How code becomes definitions. A function of the source keeps its name, in lower case with
-- underscores. Code that calls the server is an action of Exec: it reads and changes a world, which
-- is the state of everything outside and the list of the writes issued so far, the last first
-- (Calls), and ends with a value, an error or a panic. A dereference of a nil pointer, a write to a
-- nil map and a slice bound out of range are panics. What lies outside, which is the API server,
-- the clock, the publishing service, hashes, JSON and the order of a range over a Go map, is one
-- parameter, the record Client: for each call a function from a state to an answer and the next
-- state. Where a theorem names no contract, nothing is assumed of it: conflicts, other writers, stale
-- reads and failures are among its answers, and Issues (Exec/Issues) states what an action writes under
-- all of them, also when it ends with an error or a panic. That an action gets to its end needs a server
-- that stores what it is sent: the contracts of Lifecycle/Server, Workloads/Keeping, PodController/Handover
-- and Deployments/Idempotence say so call by call, Leads (Exec/Leads) states that an action ends with a
-- value and what then holds, and Witnesses has a server for each contract. Calls that only log have no
-- counterpart.
--
-- Machine integers are signed integers, where an int64 operation that can overflow is written with
-- its wrap-around (Base/Int). A map of labels can be nil (Base/Labels). The retry loop of doPost
-- runs on fuel: five rounds, since the test `r <= MaxRetryCount` fails in the fifth, where r is 4.
--
-- The start of the operator has a state of its own, that of the libraries that main.go calls, and a list
-- of what was done (Start); its loop without end is any number of rounds. What is documented of one of
-- those libraries is a hypothesis (Start/Restarts). The other infinite loops are modelled by one round.
--
-- Not modelled: what the libraries do with a registration, a route or the settings of the logger, the
-- texts of response bodies but the two common ones, logging, the generated code of apis, and the struct
-- that holds the client. In the callback, the one slice that PodResults and PodInfos share is written
-- out in both.
pub mod Base
pub mod Types
pub mod Calls
pub mod Exec
pub mod Client
pub mod Config
pub mod Utils
pub mod Predicates
pub mod Opscloud
pub mod ChangePods
pub mod Workloads
pub mod Webhook
pub mod PodController
pub mod Deployments
pub mod OpsConfig
pub mod Events
pub mod Callback
pub mod Timeouts
pub mod Lifecycle
pub mod Rollback
pub mod Suspended
pub mod Routes
pub mod Logs
pub mod Controllers
pub mod Pause
pub mod Start
pub mod Witnesses
