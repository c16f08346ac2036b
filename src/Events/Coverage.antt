-- ===== src/Events/Coverage.antt =====
-- What the event filter of change pods leaves out.
use altershield_operator.Base.{◌≡◌, refl, false, not}
use altershield_operator.Exec.{pure}
use altershield_operator.Client.{Client}
use altershield_operator.Types.{ChangePod, ChangeWorkload}
use altershield_operator.Types.State.{
  ChangePodState, execute_init, pre_wait, pre_submitted, pre_timeout, pre_failed, post_wait,
  post_submitted, post_finish, post_timeout, post_failed, execute_done, other_state,
  is_execute_done,
}
use altershield_operator.ChangePods.Reconcile.{dispatch}
use altershield_operator.Events.{change_pod_handle_event}

module _ {S : Type 0} (api : Client S) (c : ChangePod) (workload : ChangeWorkload) where
  idle :
      (st : ChangePodState)
      → not (is_execute_done st) ≡ false
      → dispatch api st c workload ≡ pure tt
  unfolding dispatch
  idle execute_done h = refl
  idle execute_init h = absurd cc
  idle pre_wait h = absurd cc
  idle pre_submitted h = absurd cc
  idle pre_timeout h = absurd cc
  idle pre_failed h = absurd cc
  idle post_wait h = absurd cc
  idle post_submitted h = absurd cc
  idle post_finish h = absurd cc
  idle post_timeout h = absurd cc
  idle post_failed h = absurd cc
  idle (other_state s) h = absurd cc

  -- The event filter loses no work: where it leaves a change pod out, the switch of the reconciler does
  -- nothing with that change pod.
  pub change_pod_handle_event-dispatch :
      change_pod_handle_event c ≡ false → dispatch api c.status.status c workload ≡ pure tt
  unfolding change_pod_handle_event
  change_pod_handle_event-dispatch h = idle c.status.status h
