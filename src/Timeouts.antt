-- ===== src/Timeouts.antt =====
-- runnable/run_changepod_timeout_valid.go and run_changeworkload_timeout_valid.go: one round of each of
-- the two loops that look for timeouts every second.
pub mod Effects
pub mod Closing
pub mod Exact
use altershield_operator.Base.{Bool, false, not, List, [], ◌∷◌, if◌then◌else◌, is_nil}
use altershield_operator.Base.Int.{ℤ, sub64, ltb_ℤ}
use altershield_operator.Calls.{update_change_pod_status, update_workload_status}
use altershield_operator.Exec.{
  Reply, done, failed, Exec, pure, sample, ask, write, attempt, ◌>>=◌, ◌>>◌,
}
use altershield_operator.Client.{Client}
use altershield_operator.Types.{ChangePod, ChangeWorkload}
use altershield_operator.Types.State.{
  ChangePodState, pre_submitted, post_submitted, pre_timeout, post_timeout, running,
  time_out_pre_threshold, is_pre_submitted, is_post_submitted, is_running, change_pod_text,
  workload_text,
}
use altershield_operator.ChangePods.Status.{get_now_time}
use altershield_operator.Utils.Constants.{change_pod_field_status, change_workload_field_status}

-- `time.Now().Unix()-since > int64(threshold)`
unfoldable pub is_over : ℤ → ℤ → ℤ → Bool
unfolding sub64
is_over now since threshold = ltb_ℤ threshold (sub64 now since)

abbrev pub listed : {A : Type 0} → Reply (List A) → List A
listed (done xs) = xs
listed (failed e) = []

module _ {S : Type 0} (api : Client S) where
  -- The write of a change pod's timeout; its error is only logged.
  unfoldable pub time_out_change_pod : ChangePodState → ChangePod → Exec S (Unit {0})
  unfolding get_now_time
  time_out_change_pod to c = do
    time ← get_now_time api
    unix ← sample api.now
    let timed_out = record c {
      status = record c.status { status = to; update_time = time; update_time_unix = unix };
    }
    reply ←
        attempt
          (write (update_change_pod_status timed_out) (api.update_change_pod_status timed_out))
    pure tt

  -- The tests of the two loops: the clock is read only for a change pod of the status.
  unfoldable pub is_over_before : ChangePod → Exec S Bool
  unfolding is_over
  is_over_before c = if not (is_pre_submitted c.status.status) then pure false else do
    now ← sample api.now
    pure (is_over now c.status.pre_submit_time_unix c.status.pre_timeout_threshold)

  unfoldable pub is_over_after : ChangePod → Exec S Bool
  unfolding is_over
  is_over_after c = if not (is_post_submitted c.status.status) then pure false else do
    now ← sample api.now
    pure (is_over now c.status.post_submit_time_unix c.status.post_timeout_threshold)

  -- The loop over the change pods submitted before the change.
  unfoldable pub pre_timeouts : List ChangePod → Exec S (Unit {0})
  unfolding is_over_before time_out_change_pod
  pre_timeouts [] = pure tt
  pre_timeouts (c ∷ cs) = do
    over ← is_over_before c
    if over then time_out_change_pod pre_timeout c else pure tt
    pre_timeouts cs

  -- The loop over the change pods submitted after it.
  unfoldable pub post_timeouts : List ChangePod → Exec S (Unit {0})
  unfolding is_over_after time_out_change_pod
  post_timeouts [] = pure tt
  post_timeouts (c ∷ cs) = do
    over ← is_over_after c
    if over then time_out_change_pod post_timeout c else pure tt
    post_timeouts cs

  -- One round of `ChangePodTimeoutValidRun`: a list that fails is empty.
  unfoldable pub change_pod_timeout_round : Exec S (Unit {0})
  unfolding pre_timeouts post_timeouts
  change_pod_timeout_round = do
    pre ←
        attempt (ask (api.list_change_pods change_pod_field_status (change_pod_text pre_submitted)))
    post ←
        attempt
          (ask (api.list_change_pods change_pod_field_status (change_pod_text post_submitted)))
    pre_timeouts (listed pre)
    post_timeouts (listed post)

  -- The write of a workload's timeout; its error is only logged.
  unfoldable pub time_out_workload : ChangeWorkload → Exec S (Unit {0})
  unfolding get_now_time
  time_out_workload w = do
    time ← get_now_time api
    unix ← sample api.now
    let timed_out = record w {
      status = record w.status {
        status = time_out_pre_threshold;
        update_time = time;
        update_time_unix = unix;
      };
    }
    reply ←
        attempt (write (update_workload_status timed_out) (api.update_workload_status timed_out))
    pure tt

  -- The test of one workload: the clock is read only for one with preparing pods.
  unfoldable pub is_workload_over : ChangeWorkload → Exec S Bool
  unfolding is_over
  is_workload_over w =
      if not (is_running w.status.status)
      then pure false
      else if is_nil w.status.defense_preparing_pods
      then pure false
      else do
        now ← sample api.now
        pure (is_over now w.status.entry_time_unix w.spec.wait_time_threshold)

  -- The loop over the running workloads.
  unfoldable pub workload_timeouts : List ChangeWorkload → Exec S (Unit {0})
  unfolding is_workload_over time_out_workload
  workload_timeouts [] = pure tt
  workload_timeouts (w ∷ ws) = do
    over ← is_workload_over w
    if over then time_out_workload w else pure tt
    workload_timeouts ws

  -- One round of `ChangeWorkloadTimeoutValidRun`
  unfoldable pub change_workload_timeout_round : Exec S (Unit {0})
  unfolding workload_timeouts
  change_workload_timeout_round = do
    reply ←
        attempt (ask (api.list_workloads_by change_workload_field_status (workload_text running)))
    workload_timeouts (listed reply)
