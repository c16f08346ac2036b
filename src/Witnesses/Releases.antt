-- ===== src/Witnesses/Releases.antt =====
-- The theorems about the course of a release, applied to concrete objects.
use altershield_operator.Base.{refl, true, [], ◌∷◌}
use altershield_operator.Exec.{◌>>=◌}
use altershield_operator.Exec.Issues.{Issues}
use altershield_operator.Base.Labels.{has_label}
use altershield_operator.Deployments.Protection.{IsProtected, suspend-IsProtected}
use altershield_operator.Types.{ChangePod, ChangeWorkload, Deployment}
use altershield_operator.Types.State.{
  execute_init, pre_submitted, pre_failed, post_submitted, post_failed, post_finish, execute_done,
  running,
}
use altershield_operator.ChangePods.Reconcile.{pre_wait_handle, post_wait_handle}
use altershield_operator.ChangePods.Waiting.{Settles, wait_handles-Settles}
use altershield_operator.Events.{watch_pod_event_handler, watch_change_pod_event_handler}
use altershield_operator.Events.Routing.{IsRouted, watch_handlers-AreRouted}
use altershield_operator.Predicates.{is_preparing}
use altershield_operator.Types.{a_pod, a_change_pod}
use altershield_operator.Workloads.Reconcile.{find_workload, pod_reconcile, change_pod_reconcile}
use altershield_operator.PodController.{reconcile}
use altershield_operator.PodController.Marks.{Finishes, reconcile-Finishes}
use altershield_operator.Workloads.Create.{ensure_init_change_pod}
use altershield_operator.Workloads.Guard.{IsGuarded, ensure_init_change_pod-IsGuarded}
use altershield_operator.Workloads.Query.{
  get_deployment_by_workload, get_finished_pods_by_workload, get_finished_change_pods_by_workload,
  get_all_pod_map_by_workload,
}
use altershield_operator.Workloads.Suspend.{add_or_remove_deployment_suspend_label}
use altershield_operator.Workloads.Failure.{IsSynced}
use altershield_operator.Utils.Pods.{is_pod_summary_slice_equal, remove_duplicate_pod}
use altershield_operator.Workloads.Synced.{sync_change_workload_status-IsSuspended}
use altershield_operator.Client.{Client}
use altershield_operator.Workloads.Success.{Succeeds, sync_change_workload_status-Succeeds}
use altershield_operator.Workloads.Sync.{sync_change_workload_status}
use altershield_operator.Witnesses.Sample.{
  summary, change_pod_in, workload_in, plain_deployment, api, world, answers, web_pod,
}

wait_handles-Settles_example :
    Settles pre_submitted pre_failed (pre_wait_handle api (change_pod_in execute_init []))
    × Settles post_submitted post_failed (post_wait_handle api (change_pod_in execute_init []))
wait_handles-Settles_example = wait_handles-Settles api (change_pod_in execute_init [])

watch_handlers-AreRouted_example :
    IsRouted api
      (is_preparing web_pod)
      (watch_pod_event_handler (a_pod web_pod))
      (pod_reconcile api (record { namespace = "default"; name = "web-x--1" }))
      (find_workload api)
    × IsRouted api true
        (watch_change_pod_event_handler (a_change_pod (change_pod_in execute_done [])))
        (change_pod_reconcile api (record { namespace = "default"; name = "web-v1-x--1" }))
        (find_workload api)
watch_handlers-AreRouted_example =
    watch_handlers-AreRouted api web_pod (change_pod_in execute_done [])

ensure_init_change_pod-IsGuarded_example :
    IsGuarded api
      (workload_in running "web-v1")
      true
      world
      (ensure_init_change_pod api (workload_in running "web-v1") true world).1.issued
ensure_init_change_pod-IsGuarded_example =
    ensure_init_change_pod-IsGuarded api (workload_in running "web-v1") true world

sync_change_workload_status-Succeeds_example :
    Issues
      (Succeeds api (workload_in running "web-v1"))
      (sync_change_workload_status api (workload_in running "web-v1"))
sync_change_workload_status-Succeeds_example =
    sync_change_workload_status-Succeeds api (workload_in running "web-v1")

reconcile-Finishes_example :
    Issues
      (Finishes api (record { namespace = "default"; name = "web-x--1" }))
      (reconcile api (record { namespace = "default"; name = "web-x--1" }))
reconcile-Finishes_example =
    reconcile-Finishes api (record { namespace = "default"; name = "web-x--1" })

suspend-IsProtected_example :
    (suspended : Deployment) × (released : Deployment) × IsProtected api plain_deployment world
      world suspended released
unfolding has_label
suspend-IsProtected_example = suspend-IsProtected api plain_deployment [] world world refl refl

abbrev owned : ChangeWorkload
owned = record (workload_in running "web-v1") {
  owner_references = (record { kind = "Deployment"; name = "web" }) ∷ [];
}

-- A change pod that is done and whose one pod failed.
abbrev failed_batch : ChangePod
failed_batch = record (change_pod_in execute_done []) {
  status = record (change_pod_in execute_done []).status {
    message = post_finish;
    pod_results = summary "web-x--1" "fail" ∷ [];
  };
}

abbrev judging : Client (Unit {0})
judging = record api { list_change_pods_in = λ ns field value. answers (failed_batch ∷ []) }

sync_change_workload_status-IsSuspended_example :
    IsSynced owned []
      (summary "web-x--1" "fail" ∷ [])
      []
      (sync_change_workload_status judging owned world).1.issued
unfolding sync_change_workload_status ◌>>=◌ has_label is_pod_summary_slice_equal
    get_deployment_by_workload get_finished_pods_by_workload add_or_remove_deployment_suspend_label
    get_finished_change_pods_by_workload get_all_pod_map_by_workload remove_duplicate_pod
sync_change_workload_status-IsSuspended_example =
    sync_change_workload_status-IsSuspended judging owned world (failed_batch ∷ [])
      (("web-x--1", web_pod) ∷ []) tt refl refl refl refl
