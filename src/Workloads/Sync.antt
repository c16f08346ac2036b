-- ===== src/Workloads/Sync.antt =====
-- `syncChangeWorkloadStatus`: what the finished change pods make of their workload.
use altershield_operator.Base.{
  ℕ, ◌&&◌, List, [], ◌∷◌, ◌++◌, if◌then◌else◌, ◌==◌, length, ltb, is_nil,
}
use altershield_operator.Base.Int.{ℤ, pos, leb_ℤ, eqb_ℤ}
use altershield_operator.Calls.{update_workload_status}
use altershield_operator.Exec.{Exec, pure, sample, write, or_crash, ◌>>=◌, ◌>>◌}
use altershield_operator.Client.{Client}
use altershield_operator.Types.{ChangePod, ChangeWorkload, PodSummary}
use altershield_operator.Types.State.{
  ChangePodState, pre_timeout, pre_failed, post_failed, post_timeout, post_finish, WorkloadState,
  success, suspend,
}
use altershield_operator.ChangePods.Status.{get_now_time}
use altershield_operator.Utils.Constants.{change_pod_verdict_pass}
use altershield_operator.Utils.Pods.{remove_duplicate_pod, is_pod_summary_slice_equal}
use altershield_operator.Workloads.Query.{
  get_finished_change_pods_by_workload, get_all_pod_map_by_workload, get_deployment_by_workload,
  get_finished_pods_by_workload,
}
use altershield_operator.Workloads.Suspend.{add_or_remove_deployment_suspend_label}

-- `getPassAndFailedPodsByPostFinishChangePod`, from the two lists so far.
unfoldable pub pass_and_failed_from :
    List PodSummary → List PodSummary → List PodSummary → List PodSummary × List PodSummary
pass_and_failed_from pass fail [] = (pass, fail)
pass_and_failed_from pass fail (r ∷ rs) =
    let passed = r.verdict == change_pod_verdict_pass in
    pass_and_failed_from (if passed then pass ++ r ∷ [] else pass)
      (if passed then fail else fail ++ r ∷ []) rs

unfoldable pub get_pass_and_failed_pods : ChangePod → List PodSummary × List PodSummary
unfolding pass_and_failed_from
get_pass_and_failed_pods c = pass_and_failed_from [] [] c.status.pod_results

-- The switch on the message of one finished change pod: what it adds to the two lists. Timeouts and
-- failures of the service count as passed.
unfoldable pub verdict_of : ChangePodState → ChangePod → List PodSummary × List PodSummary
unfolding get_pass_and_failed_pods
verdict_of pre_timeout c = (c.spec.pod_infos, [])
verdict_of pre_failed c = (c.spec.pod_infos, [])
verdict_of post_failed c = (c.spec.pod_infos, [])
verdict_of post_timeout c = (c.spec.pod_infos, [])
verdict_of post_finish c = get_pass_and_failed_pods c
verdict_of _ c = ([], [])

-- The loop over the finished change pods.
unfoldable pub collect :
    List PodSummary → List PodSummary → List ChangePod → List PodSummary × List PodSummary
unfolding verdict_of
collect pass fail [] = (pass, fail)
collect pass fail (c ∷ cs) =
    let (p, f) = verdict_of c.status.message c in collect (pass ++ p) (fail ++ f) cs

-- The status that `validateChangeWorkloadSuccessOrSuspend` gives: a failed pod outweighs success.
unfoldable pub validated_state : ChangeWorkload → ℕ → ℤ → WorkloadState
validated_state w finished replicas =
    let all_pod_finished = leb_ℤ replicas (pos finished) in
    let all_pod_pass = eqb_ℤ (pos (length w.status.defense_check_pass_pods)) replicas in
    let pod_fail = ltb 0 (length w.status.defense_check_fail_pods) in
    if pod_fail
    then suspend
    else if all_pod_finished && all_pod_pass
    then success
    else w.status.status

module _ {S : Type 0} (api : Client S) where
  -- `updateWorkloadStatus`
  unfoldable pub update_status : ChangeWorkload → Exec S (Unit {0})
  unfolding get_now_time
  update_status w = do
    time ← get_now_time api
    unix ← sample api.now
    let updated = record w {
      status = record w.status { update_time = time; update_time_unix = unix };
    }
    stored ← write (update_workload_status updated) (api.update_workload_status updated)
    pure tt

  -- `validateChangeWorkloadSuccessOrSuspend`: a deployment with no replicas field panics.
  unfoldable pub validate_success_or_suspend : ChangeWorkload → Exec S (Unit {0})
  unfolding validated_state update_status
  validate_success_or_suspend w = do
    deployment ← get_deployment_by_workload api w
    replicas ← or_crash deployment.spec_replicas
    finished ← get_finished_pods_by_workload api w
    let state = validated_state w (length finished) replicas
    let pod_fail = ltb 0 (length w.status.defense_check_fail_pods)
    add_or_remove_deployment_suspend_label api deployment pod_fail
    update_status (record w { status = record w.status { status = state } })

  -- The update of `syncChangeWorkloadStatus`, from the two lists without duplicates.
  unfoldable pub update_checked_pods :
      ChangeWorkload → List PodSummary → List PodSummary → Exec S (Unit {0})
  unfolding validate_success_or_suspend
  update_checked_pods w pass fail =
      if is_pod_summary_slice_equal pass w.status.defense_check_pass_pods
        && is_pod_summary_slice_equal fail w.status.defense_check_fail_pods
      then pure tt
      else validate_success_or_suspend (record w {
        status = record w.status { defense_check_pass_pods = pass; defense_check_fail_pods = fail };
      })

  -- `syncChangeWorkloadStatus`
  unfoldable pub sync_change_workload_status : ChangeWorkload → Exec S (Unit {0})
  unfolding collect update_checked_pods
  sync_change_workload_status w = do
    change_pods ← get_finished_change_pods_by_workload api w
    pods ← get_all_pod_map_by_workload api w
    if is_nil change_pods then pure tt else do
      let (pass, fail) = collect [] [] change_pods
      update_checked_pods w (remove_duplicate_pod pass pods) (remove_duplicate_pod fail pods)
