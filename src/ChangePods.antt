-- ===== src/ChangePods.antt =====
-- controllers/changepod_controller.go: the controller that takes a batch of pods, a change pod,
-- through the checks of the publishing service.
pub mod Status
pub mod Notify
pub mod Batch
pub mod Reconcile
pub mod Writes
pub mod Transitions
pub mod Batches
pub mod Progress
pub mod Waiting
