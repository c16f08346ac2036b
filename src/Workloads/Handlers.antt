-- ===== src/Workloads/Handlers.antt =====
-- The handlers of the change workload controller, one for each status.
use altershield_operator.Base.{
  String, true, false, List, [], ◌∷◌, Option, none, some, if◌then◌else◌, ◌==◌,
}
use altershield_operator.Base.Labels.{label}
use altershield_operator.Calls.{delete_workload}
use altershield_operator.Exec.{done, failed, Exec, pure, ask, write, attempt, ◌>>=◌, ◌>>◌}
use altershield_operator.Client.{Client}
use altershield_operator.Types.{ChangePod, ChangeWorkload, Deployment}
use altershield_operator.Types.State.{
  WorkloadState, init, success, running, suspend, time_out_pre_threshold,
}
use altershield_operator.Utils.Constants.{admission_webhook_version_label, deployment_name_label}
use altershield_operator.Workloads.Create.{ensure_init_change_pod}
use altershield_operator.Workloads.Sync.{sync_change_workload_status, update_status}

module _ {S : Type 0} (api : Client S) where
  -- The loop of `deleteOldChangeWorkload`: an error of one deletion is only logged.
  unfoldable pub delete_others : String → List ChangeWorkload → Exec S (Unit {0})
  delete_others name [] = pure tt
  delete_others name (w ∷ ws) = if w.name == name then delete_others name ws else do
    reply ← attempt (write (delete_workload w) (api.delete_workload w))
    delete_others name ws

  -- The part of `deleteOldChangeWorkload` after the deployment was read.
  unfoldable pub delete_old_of : ChangeWorkload → Deployment → Exec S (Unit {0})
  unfolding delete_others label
  delete_old_of w d =
      if label admission_webhook_version_label d.labels
        == label admission_webhook_version_label w.labels
      then (do
        reply ←
            attempt (ask (api.list_workloads w.namespace ((deployment_name_label, d.name) ∷ [])))
        elim reply [ failed e ↦ pure tt | done ws ↦ delete_others w.name ws ])
      else pure tt

  -- `deleteOldChangeWorkload`: errors are only logged.
  unfoldable pub delete_old_change_workload : ChangeWorkload → Exec S (Unit {0})
  unfolding delete_old_of label
  delete_old_change_workload w = do
    reply ← attempt (
        ask (
          api.get_deployment
            (record { namespace = w.namespace; name = label deployment_name_label w.labels })))
    elim reply [ failed e ↦ pure tt | done d ↦ delete_old_of w d ]

  -- `initChangeWorkloadHandle`
  unfoldable pub init_handle : ChangeWorkload → Exec S (Unit {0})
  unfolding update_status
  init_handle w = update_status api (record w { status = record w.status { status = running } })

  -- `successChangeWorkloadHandle`
  unfoldable pub success_handle : ChangeWorkload → Exec S (Unit {0})
  unfolding delete_old_change_workload ensure_init_change_pod sync_change_workload_status
  success_handle w = do
    delete_old_change_workload w
    (created, w') ← ensure_init_change_pod api w false
    sync_change_workload_status api w'

  -- `runningChangeWorkloadHandle`
  unfoldable pub running_handle : ChangeWorkload → Exec S (Unit {0})
  unfolding ensure_init_change_pod sync_change_workload_status
  running_handle w = do
    (created, w') ← ensure_init_change_pod api w true
    sync_change_workload_status api w'

  -- `suspendChangeWorkloadHandle`
  unfoldable pub suspend_handle : ChangeWorkload → Exec S (Unit {0})
  unfolding ensure_init_change_pod sync_change_workload_status
  suspend_handle w = do
    (created, w') ← ensure_init_change_pod api w false
    sync_change_workload_status api w'

  -- What `waitTimeoutChangeWorkloadHandle` does after the change pod was ensured.
  unfoldable pub after_wait_timeout : Option ChangePod → ChangeWorkload → Exec S (Unit {0})
  unfolding update_status sync_change_workload_status
  after_wait_timeout none w = sync_change_workload_status api w
  after_wait_timeout (some created) w =
      update_status api (record w { status = record w.status { status = running } })

  -- `waitTimeoutChangeWorkloadHandle`
  unfoldable pub wait_timeout_handle : ChangeWorkload → Exec S (Unit {0})
  unfolding ensure_init_change_pod after_wait_timeout
  wait_timeout_handle w = do
    (created, w') ← ensure_init_change_pod api w false
    after_wait_timeout created w'

  -- The switch of `Reconcile` on the status.
  unfoldable pub dispatch : WorkloadState → ChangeWorkload → Exec S (Unit {0})
  unfolding init_handle success_handle running_handle suspend_handle wait_timeout_handle
  dispatch init w = init_handle w
  dispatch success w = success_handle w
  dispatch running w = running_handle w
  dispatch suspend w = suspend_handle w
  dispatch time_out_pre_threshold w = wait_timeout_handle w
  dispatch _ w = pure tt
