-- ===== src/Workloads.antt =====
-- controllers/changeworkload_controller.go, changeworkload_pod_control.go and
-- changeworkload_changepod_control.go: the controller that takes a release of a deployment, a change
-- workload, through batches of pods.
pub mod Query
pub mod Create
pub mod Suspend
pub mod Sync
pub mod Handlers
pub mod Reconcile
pub mod Verdicts
pub mod Outcomes
pub mod Synchronized
pub mod Permissions
pub mod Writes
pub mod Guard
pub mod Success
pub mod Failure
pub mod Synced
pub mod Keeping
pub mod Judged
