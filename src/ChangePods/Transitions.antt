-- ===== src/ChangePods/Transitions.antt =====
-- What the change pod controller may write, whatever the server and the service answer.
use altershield_operator.Base.{◌≡◌, refl, String, not, is_nil, Option, none, some, ◌⊎◌, inl, inr}
use altershield_operator.Base.Labels.{Labels, get_label?}
use altershield_operator.Calls.{
  Call, patch_pod, update_change_pod, update_change_pod_status, delete_change_pod, post,
}
use altershield_operator.Exec.{Reply, done, failed, ◌>>=◌}
use altershield_operator.Exec.Issues.{
  Issues, Issues-bind, Issues-bind_knowing, Issues-if, Issues-pure, Issues-raise, Issues-attempt,
}
use altershield_operator.Client.{Client}
use altershield_operator.Types.{ChangePod, ChangeWorkload, Pod}
use altershield_operator.Types.State.{
  ChangePodState, execute_init, pre_wait, pre_submitted, pre_timeout, pre_failed, post_wait,
  post_submitted, post_finish, post_timeout, post_failed, execute_done,
}
use altershield_operator.ChangePods.Status.{
  set_change_pod_status, set_change_pod_done_status, set_change_pod_pre_failed_status,
  set_change_pod_post_failed_status, update_status,
}
use altershield_operator.ChangePods.Notify.{or_no_node_id, node_id_of}
use altershield_operator.ChangePods.Reconcile.{
  execute_init_handle, pre_wait_handle, post_wait_handle, handle_finished_change_pod, dispatch,
  pre_wait_answered, post_wait_answered,
}
use altershield_operator.Opscloud.Writes.{Issues-service_template}
use altershield_operator.Utils.Constants.{defense_status_label, defense_status_label_processed}
use altershield_operator.ChangePods.Writes.{
  Returns-set_change_pod_status, Issues-set_change_pod_status, Issues-update_status,
  Returns-pre_submitted, Returns-post_submitted, Issues-submitted, Issues-mark_defensed_pods,
  Issues-fill_change_pod,
}

-- The diagram of a change pod's status, as far as this controller moves it.
pub data Edge : ChangePodState → ChangePodState → Type 0 where
  fill : Edge execute_init pre_wait
  start : Edge pre_wait pre_submitted
  start_failed : Edge pre_wait pre_failed
  finish : Edge post_wait post_submitted
  finish_failed : Edge post_wait post_failed
  finished : Edge post_finish execute_done
  pre_timed_out : Edge pre_timeout execute_done
  post_timed_out : Edge post_timeout execute_done
  pre_gave_up : Edge pre_failed execute_done
  post_gave_up : Edge post_failed execute_done

-- What the controller may issue on a change pod that it read in the given status: a status write along
-- an edge of the diagram; the write of the pods, their marking (a pod gets the label processed, and
-- nothing but its labels changes) and a deletion while the status is the initial one; a post while
-- it waits.
abbrev pub Follows : ChangePodState → Call → Type 0
Follows from (update_change_pod_status d) = Edge from d.status.status
Follows from (update_change_pod d) = (from ≡ execute_init) × (d.status.status ≡ from)
Follows from (patch_pod a b) =
    (from ≡ execute_init)
    × (get_label? defense_status_label b.labels ≡ some defense_status_label_processed)
    × (b ≡ record a { labels = b.labels })
Follows from (delete_change_pod d) = from ≡ execute_init
Follows from (post u b) = (from ≡ pre_wait) ⊎ (from ≡ post_wait)
Follows from _ = ⊥

marking :
    (pod : Pod) (l : Labels)
    → get_label? defense_status_label l ≡ some defense_status_label_processed
    → Follows execute_init (patch_pod pod (record pod { labels = l }))
marking pod l e = (refl, e, refl)

module _ {S : Type 0} (api : Client S) where
  -- Setting a status along an edge and writing it.
  Issues-set_and_update :
      {from to : ChangePodState} (c : ChangePod)
      → Edge from to
      → Issues (Follows from) (set_change_pod_status api to c >>= update_status api)
  Issues-set_and_update {to = to} c e =
      Issues-bind_knowing _ _ (Issues-set_change_pod_status api to c)
        (Returns-set_change_pod_status api to c) (λ d p. Issues-update_status api d (rw p e))

  Issues-pre_wait_answered :
      (c : ChangePod) (r : Reply String) → Issues (Follows pre_wait) (pre_wait_answered api c r)
  unfolding pre_wait_answered set_change_pod_pre_failed_status
  Issues-pre_wait_answered c (failed e) = Issues-set_and_update c start_failed
  Issues-pre_wait_answered c (done id) =
      let noted = record c { status = record c.status { change_pod_id = id } } in
      Issues-bind_knowing _ _ (Issues-submitted api noted).0 (Returns-pre_submitted api noted)
        (λ d p. Issues-update_status api d (rw p start))

  Issues-post_wait_answered :
      {A : Type 0} (c : ChangePod) (r : Reply A)
      → Issues (Follows post_wait) (post_wait_answered api c r)
  unfolding post_wait_answered set_change_pod_post_failed_status
  Issues-post_wait_answered c (failed e) = Issues-set_and_update c finish_failed
  Issues-post_wait_answered c (done result) =
      Issues-bind_knowing _ _ (Issues-submitted api c).1 (Returns-post_submitted api c)
        (λ d p. Issues-update_status api d (rw p finish))

  Issues-or_no_node_id : {Q : Call → Type 0} (o : Option String) → Issues Q (or_no_node_id api o)
  Issues-or_no_node_id none = Issues-raise _
  Issues-or_no_node_id (some id) = Issues-pure id

  Issues-pre_wait_handle : (c : ChangePod) → Issues (Follows pre_wait) (pre_wait_handle api c)
  unfolding pre_wait_handle
  Issues-pre_wait_handle c =
      Issues-bind _ _
        (Issues-attempt _ (
          Issues-bind _ _
            (Issues-service_template api (λ u b. inl refl) _ "submitChangeExecBatchStartNotify")
            (λ result. Issues-or_no_node_id (node_id_of result.domain))))
        (Issues-pre_wait_answered c)

  Issues-post_wait_handle : (c : ChangePod) → Issues (Follows post_wait) (post_wait_handle api c)
  unfolding post_wait_handle
  Issues-post_wait_handle c =
      Issues-bind _ _
        (Issues-attempt _
          (Issues-service_template api (λ u b. inr refl) _ "submitChangeFinishNotify"))
        (Issues-post_wait_answered c)

  Issues-handle_finished :
      {from : ChangePodState} (c : ChangePod)
      → Edge from execute_done
      → Issues (Follows from) (handle_finished_change_pod api c)
  unfolding handle_finished_change_pod set_change_pod_done_status
  Issues-handle_finished c e =
      Issues-set_and_update (record c { status = record c.status { message = c.status.status } }) e

  Issues-execute_init_handle :
      (c : ChangePod) (workload : ChangeWorkload)
      → c.status.status ≡ execute_init
      → Issues (Follows execute_init) (execute_init_handle api c workload)
  unfolding execute_init_handle
  Issues-execute_init_handle c workload p =
      Issues-if (not (is_nil c.spec.pod_infos)) _ _
        (λ _. Issues-mark_defensed_pods api marking c.spec.pod_infos)
        (λ _.
          Issues-fill_change_pod api marking c workload refl (λ s array pods a t cut. (refl, p))
            (λ d q. rw q fill))

  -- Whatever the server and the service answer, the reconciler of a change pod that was read in a status
  -- issues only these writes: a write of the status along an edge of the diagram from that status; while
  -- the status is the initial one, a write of the pods that leaves the status, markings of pods that set
  -- the label to processed and change labels alone, and a deletion; and posts while it is `PreWait` or
  -- `PostWait`.
  pub dispatch-Follows :
      (from : ChangePodState) (c : ChangePod) (workload : ChangeWorkload)
      → c.status.status ≡ from
      → Issues (Follows from) (dispatch api from c workload)
  unfolding dispatch
  dispatch-Follows execute_init c workload p = Issues-execute_init_handle c workload p
  dispatch-Follows pre_wait c workload p = Issues-pre_wait_handle c
  dispatch-Follows post_wait c workload p = Issues-post_wait_handle c
  dispatch-Follows post_finish c workload p = Issues-handle_finished c finished
  dispatch-Follows pre_timeout c workload p = Issues-handle_finished c pre_timed_out
  dispatch-Follows post_timeout c workload p = Issues-handle_finished c post_timed_out
  dispatch-Follows pre_failed c workload p = Issues-handle_finished c pre_gave_up
  dispatch-Follows post_failed c workload p = Issues-handle_finished c post_gave_up
  dispatch-Follows _ c workload p = Issues-pure tt
