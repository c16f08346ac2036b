-- ===== src/ChangePods/Reconcile.antt =====
-- The handlers of the change pod controller, one for each status, and `Reconcile`.
use altershield_operator.Base.{String, if◌then◌else◌, not, map, is_nil}
use altershield_operator.Base.Labels.{label}
use altershield_operator.Calls.{update_change_pod}
use altershield_operator.Exec.{
  Reply, done, failed, Exec, pure, or_crash, ask, write, attempt, ◌>>=◌, ◌>>◌, ignore_not_found,
}
use altershield_operator.Client.{Client}
use altershield_operator.Opscloud.{submit_change_finish_notify}
use altershield_operator.Types.{ChangePod, ChangeWorkload, NamespacedName}
use altershield_operator.Types.State.{
  ChangePodState, execute_init, pre_wait, pre_timeout, pre_failed, post_wait, post_finish,
  post_timeout, post_failed,
}
use altershield_operator.Utils.Constants.{deployment_name_label}
use altershield_operator.ChangePods.Status.{
  set_change_pod_pre_submitted_status, set_change_pod_post_submitted_status,
  set_change_pod_done_status, set_change_pod_pre_wait_status, set_change_pod_pre_failed_status,
  set_change_pod_post_failed_status, update_status,
}
use altershield_operator.ChangePods.Notify.{
  submit_change_start_notify_and_get_node_id, build_change_finish_notify_request,
}
use altershield_operator.ChangePods.Batch.{
  get_preparing_pod_summary, cut_at_threshold, mark_defensed_pods, defense_processed_pods,
  get_finished_pods_without_defense,
}

module _ {S : Type 0} (api : Client S) where
  -- The branch of `executeInitChangePodHandle` for a change pod that has no pods yet.
  unfoldable pub fill_change_pod : ChangePod → ChangeWorkload → Exec S (Unit {0})
  unfolding get_finished_pods_without_defense cut_at_threshold get_preparing_pod_summary label
      defense_processed_pods set_change_pod_pre_wait_status update_status
  fill_change_pod c workload = do
    found ← get_finished_pods_without_defense api c
    pods ← or_crash (cut_at_threshold found workload.spec.count_threshold)
    let summary = get_preparing_pod_summary (label deployment_name_label c.labels)
    let filled = record c { spec = record c.spec { pod_infos = map summary pods } }
    stored ← write (update_change_pod filled) (api.update_change_pod filled)
    defense_processed_pods api pods
    ready ← set_change_pod_pre_wait_status api stored
    update_status api ready

  -- `executeInitChangePodHandle`
  unfoldable pub execute_init_handle : ChangePod → ChangeWorkload → Exec S (Unit {0})
  unfolding mark_defensed_pods fill_change_pod
  execute_init_handle c workload =
      if not (is_nil c.spec.pod_infos)
      then mark_defensed_pods api c.spec.pod_infos
      else fill_change_pod c workload

  -- What `preWaitChangePodHandle` writes once the service has answered.
  unfoldable pub pre_wait_answered : ChangePod → Reply String → Exec S (Unit {0})
  unfolding set_change_pod_pre_submitted_status set_change_pod_pre_failed_status update_status
  pre_wait_answered c (failed e) = do
    marked ← set_change_pod_pre_failed_status api c
    update_status api marked
  pre_wait_answered c (done node_id) = do
    marked ←
        set_change_pod_pre_submitted_status api
          (record c { status = record c.status { change_pod_id = node_id } })
    update_status api marked

  -- `preWaitChangePodHandle`
  unfoldable pub pre_wait_handle : ChangePod → Exec S (Unit {0})
  unfolding submit_change_start_notify_and_get_node_id pre_wait_answered
  pre_wait_handle c = do
    reply ← attempt (submit_change_start_notify_and_get_node_id api c)
    pre_wait_answered c reply

  -- What `postWaitChangePodHandle` writes once the service has answered.
  unfoldable pub post_wait_answered : {A : Type 0} → ChangePod → Reply A → Exec S (Unit {0})
  unfolding set_change_pod_post_submitted_status set_change_pod_post_failed_status update_status
  post_wait_answered c (failed e) = do
    marked ← set_change_pod_post_failed_status api c
    update_status api marked
  post_wait_answered c (done result) = do
    marked ← set_change_pod_post_submitted_status api c
    update_status api marked

  -- `postWaitChangePodHandle`
  unfoldable pub post_wait_handle : ChangePod → Exec S (Unit {0})
  unfolding submit_change_finish_notify build_change_finish_notify_request post_wait_answered
  post_wait_handle c = do
    reply ← attempt (submit_change_finish_notify api (build_change_finish_notify_request c))
    post_wait_answered c reply

  -- `handleFinishedChangePod`
  unfoldable pub handle_finished_change_pod : ChangePod → Exec S (Unit {0})
  unfolding set_change_pod_done_status update_status
  handle_finished_change_pod c = do
    marked ←
        set_change_pod_done_status api
          (record c { status = record c.status { message = c.status.status } })
    update_status api marked

  -- The switch of `Reconcile` on the status.
  unfoldable pub dispatch : ChangePodState → ChangePod → ChangeWorkload → Exec S (Unit {0})
  unfolding execute_init_handle pre_wait_handle post_wait_handle handle_finished_change_pod
  dispatch execute_init c workload = execute_init_handle c workload
  dispatch pre_wait c workload = pre_wait_handle c
  dispatch post_wait c workload = post_wait_handle c
  dispatch post_finish c workload = handle_finished_change_pod c
  dispatch pre_timeout c workload = handle_finished_change_pod c
  dispatch post_timeout c workload = handle_finished_change_pod c
  dispatch pre_failed c workload = handle_finished_change_pod c
  dispatch post_failed c workload = handle_finished_change_pod c
  dispatch _ c workload = pure tt

  -- `Reconcile`, from the change pod that was read.
  unfoldable pub with_change_pod : Reply ChangePod → Exec S (Unit {0})
  unfolding dispatch ignore_not_found
  with_change_pod (failed e) = ignore_not_found e tt
  with_change_pod (done c) = do
    reply ← attempt (
        ask
          (api.get_workload (record { namespace = c.namespace; name = c.spec.change_workload_id })))
    elim reply [ failed e ↦ ignore_not_found e tt | done w ↦ dispatch c.status.status c w ]

  -- `Reconcile`
  unfoldable pub reconcile : NamespacedName → Exec S (Unit {0})
  unfolding with_change_pod
  reconcile key = do reply ← attempt (ask (api.get_change_pod key)); with_change_pod reply
