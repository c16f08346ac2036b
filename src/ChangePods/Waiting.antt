-- ===== src/ChangePods/Waiting.antt =====
-- What becomes of a change pod that waits for the service.
use altershield_operator.Base.{String, ◌≡◌, ap, ◌∙◌, List, ◌∷◌, ◌⊎◌, inl, inr, Option, none, some}
use altershield_operator.Calls.{Call, update_change_pod_status}
use altershield_operator.Exec.{World, Exec, Reply, done, failed}
use altershield_operator.Exec.Ends.{
  Ends, Ends-pure, Ends-raise, Ends-ask, Ends-sample, Ends-if, Ends-bind, attempt-handled,
}
use altershield_operator.Client.{Client}
use altershield_operator.Types.{ChangePod}
use altershield_operator.Types.Opscloud.{Request}
use altershield_operator.Types.State.{
  ChangePodState, pre_submitted, pre_failed, post_submitted, post_failed,
}
use altershield_operator.ChangePods.Notify.{
  or_no_node_id, node_id_of, submit_change_start_notify_and_get_node_id,
  build_change_finish_notify_request,
}
use altershield_operator.ChangePods.Reconcile.{
  pre_wait_handle, post_wait_handle, pre_wait_answered, post_wait_answered,
}
use altershield_operator.ChangePods.Progress.{by_answer, answered-Moves}
use altershield_operator.Opscloud.{
  do_post, service_template, submit_change_start_notify, submit_change_finish_notify,
}
use altershield_operator.Opscloud.Retry.{post_loop_total}

-- From every world the action ends with a write of the status, to one of the two.
abbrev pub Settles : {S : Type 0} → ChangePodState → ChangePodState → Exec S (Unit {0}) → Type 0
Settles {S = S} accepted refused m =
    (w : World S)
    → (d : ChangePod) × (before : List Call) × ((m w).1.issued
        ≡ update_change_pod_status d ∷ before)
      × ((d.status.status ≡ accepted) ⊎ (d.status.status ≡ refused))

either :
    {A : Type 0} (accepted refused st : ChangePodState) (reply : Reply A)
    → st ≡ by_answer accepted refused reply
    → (st ≡ accepted) ⊎ (st ≡ refused)
either accepted refused st (done a) h = inl h
either accepted refused st (failed e) h = inr h

module _ {S : Type 0} (api : Client S) where
  Ends-do_post : (uri : String) (request : Request) → Ends (do_post api uri request)
  unfolding do_post
  Ends-do_post uri request = Ends-bind _ _ (Ends-sample _) (λ now.
      Ends-bind _ _ (record { at = λ w. (post_loop_total api uri _ _ w).no_panic })
        (λ resp. Ends-bind _ _ (Ends-ask _) (λ all. Ends-ask _)))

  Ends-service_template :
      (request : Request) (action : String) → Ends (service_template api request action)
  unfolding service_template
  Ends-service_template request action =
      Ends-bind _ _ (Ends-do_post _ request)
        (λ result. Ends-if result.success _ _ (Ends-pure result) (Ends-raise _))

  Ends-or_no_node_id : (o : Option String) → Ends (or_no_node_id api o)
  Ends-or_no_node_id (some id) = Ends-pure id
  Ends-or_no_node_id none = Ends-raise _

  Ends-submit : (c : ChangePod) → Ends (submit_change_start_notify_and_get_node_id api c)
  unfolding submit_change_start_notify_and_get_node_id submit_change_start_notify
  Ends-submit c =
      Ends-bind _ _ (Ends-service_template _ "submitChangeExecBatchStartNotify")
        (λ result. Ends-or_no_node_id (node_id_of result.domain))

  Settles-pre : (c : ChangePod) → Settles pre_submitted pre_failed (pre_wait_handle api c)
  unfolding pre_wait_handle
  Settles-pre c w =
      let (reply, e) =
        attempt-handled (submit_change_start_notify_and_get_node_id api c) (pre_wait_answered api c)
          (Ends-submit c) w in
      let (d, i, st) =
        (answered-Moves api c).0 reply (submit_change_start_notify_and_get_node_id api c w).1 in
      (d, _, ap (λ r. r.1.issued) e ∙ i, either _ _ _ reply st)

  Ends-finish :
      (c : ChangePod)
      → Ends (submit_change_finish_notify api (build_change_finish_notify_request c))
  unfolding submit_change_finish_notify
  Ends-finish c = Ends-service_template _ "submitChangeFinishNotify"

  Settles-post : (c : ChangePod) → Settles post_submitted post_failed (post_wait_handle api c)
  unfolding post_wait_handle
  Settles-post c w =
      let m = submit_change_finish_notify api (build_change_finish_notify_request c) in
      let (reply, e) = attempt-handled m (post_wait_answered api c) (Ends-finish c) w in
      let (d, i, st) = (answered-Moves api c).1 _ reply (m w).1 in
      (d, _, ap (λ r. r.1.issued) e ∙ i, either _ _ _ reply st)

  -- Whatever the server and the service answer, and also when the service cannot be reached, the handlers
  -- of the two waiting statuses always get to their last step: the last write that they issue is the
  -- status, as submitted or as failed.
  pub wait_handles-Settles :
      (c : ChangePod)
      → Settles pre_submitted pre_failed (pre_wait_handle api c)
        × Settles post_submitted post_failed (post_wait_handle api c)
  wait_handles-Settles c = (Settles-pre c, Settles-post c)
