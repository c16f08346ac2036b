-- ===== src/Workloads/Synchronized.antt =====
-- The sync of a change workload writes verdicts and admitted patches only.
use altershield_operator.Base.{String, ◌≡◌, ◌&&◌, List, [], is_nil, length, Option, none, some}
use altershield_operator.Base.Int.{ℤ}
use altershield_operator.Calls.{Call, update_workload_status, patch_deployment}
use altershield_operator.Exec.Issues.{
  Issues, Returns-or_crash, Issues-bind, Issues-bind_knowing, Issues-if, Issues-pure, Issues-write,
  Issues-ask, Issues-sample, Issues-or_crash, issues_rules,
}
use altershield_operator.Client.{Client}
use altershield_operator.Types.{ChangeWorkload, Deployment, PodSummary}
use altershield_operator.Deployments.Admission.{Issues-add_or_remove}
use altershield_operator.Webhook.{validate_update}
use altershield_operator.ChangePods.Status.{get_now_time}
use altershield_operator.Utils.Pods.{is_pod_summary_slice_equal}
use altershield_operator.Utils.Pods.Distinct.{AreDistinct, remove_duplicate_pod_lem}
use altershield_operator.Workloads.Query.{
  get_all_change_pods_by_workload, get_finished_change_pods_by_workload,
  get_all_pod_map_by_workload, get_all_pods_by_version, get_deployment_by_workload,
  get_owner_deployment, get_finished_pods_by_workload, get_all_pods_by_workload,
}
use altershield_operator.Workloads.Sync.{
  validated_state, update_status, validate_success_or_suspend, update_checked_pods,
  sync_change_workload_status, collect,
}
use altershield_operator.Workloads.Outcomes.{
  IsVerdict, with_checked, Returns-get_owner_deployment, Returns-get_finished_pods, verdict,
}

module _ {S : Type 0} (api : Client S) where
  pub Issues-update_status :
      {Q : Call → Type 0} (w : ChangeWorkload)
      → ((time : String) (unix : ℤ)
          → Q (
              update_workload_status (record w {
                status = record w.status { update_time = time; update_time_unix = unix };
              })))
      → Issues Q (update_status api w)
  unfolding update_status get_now_time
  Issues-update_status w q = Issues-bind _ _ (Issues-sample _) (λ time.
      Issues-bind _ _ (Issues-sample _)
        (λ unix. Issues-bind _ _ (Issues-write _ _ (q time unix)) (λ _. Issues-pure tt)))

module _ {S : Type 0} (api : Client S) (w : ChangeWorkload) {Q : Call → Type 0}
    (admits : (before after : Deployment)
      → validate_update after before ≡ none
      → Q (patch_deployment before after))
    (judges : (after : ChangeWorkload)
      → IsVerdict api w after
      → Q (update_workload_status after)) where
  Issues-get_owner_deployment :
      (ns : String) (o : Option String) → Issues Q (get_owner_deployment api ns o)
  unfolding get_owner_deployment
  Issues-get_owner_deployment ns none = Issues-pure _
  Issues-get_owner_deployment ns (some name) = Issues-ask _

  Issues-get_finished_pods : (v : ChangeWorkload) → Issues Q (get_finished_pods_by_workload api v)
  unfolding get_finished_pods_by_workload get_all_pods_by_workload get_all_pods_by_version
  Issues-get_finished_pods v = search issues_rules

  Issues-validate :
      (pass fail : List PodSummary)
      → AreDistinct pass
      → AreDistinct fail
      → Issues Q (validate_success_or_suspend api (with_checked api w pass fail))
  unfolding validate_success_or_suspend get_deployment_by_workload
  Issues-validate pass fail hp hf =
      Issues-bind_knowing _ _ (Issues-get_owner_deployment _ _)
        (Returns-get_owner_deployment api w _)
        (λ deployment owner.
          Issues-bind_knowing _ _ (Issues-or_crash _) (Returns-or_crash _ (λ replicas e. e))
            (λ replicas n.
              Issues-bind_knowing _ _ (Issues-get_finished_pods _)
                (Returns-get_finished_pods api (with_checked api w pass fail))
                (λ finished found.
                  Issues-bind _ _ (Issues-add_or_remove api admits deployment _) (λ _.
                    Issues-update_status api
                      (record (with_checked api w pass fail) {
                        status = record (with_checked api w pass fail).status {
                          status =
                              validated_state (with_checked api w pass fail) (length finished)
                                replicas;
                        };
                      })
                      (λ time unix. judges _ (
                        verdict api w pass fail deployment replicas finished time unix hp hf owner n
                          found))))))

  Issues-update_checked_pods :
      (pass fail : List PodSummary)
      → AreDistinct pass
      → AreDistinct fail
      → Issues Q (update_checked_pods api w pass fail)
  unfolding update_checked_pods
  Issues-update_checked_pods pass fail hp hf =
      Issues-if
        (is_pod_summary_slice_equal pass w.status.defense_check_pass_pods
          && is_pod_summary_slice_equal fail w.status.defense_check_fail_pods)
        _ _ (λ _. Issues-pure tt) (λ _. Issues-validate _ _ hp hf)

  pub Issues-sync : Issues Q (sync_change_workload_status api w)
  unfolding sync_change_workload_status get_finished_change_pods_by_workload
      get_all_change_pods_by_workload get_all_pod_map_by_workload get_all_pods_by_version
  Issues-sync = Issues-bind _ _ (search issues_rules) (λ change_pods.
      Issues-bind _ _ (search issues_rules) (λ pods.
        Issues-if (is_nil change_pods) _ _ (λ _. Issues-pure tt)
          (λ _.
            let (pass, fail) = collect [] [] change_pods in
            Issues-update_checked_pods _ _ (remove_duplicate_pod_lem pass pods).0
              (remove_duplicate_pod_lem fail pods).0)))
