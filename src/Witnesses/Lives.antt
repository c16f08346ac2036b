-- ===== src/Witnesses/Lives.antt =====
-- The theorems about the life of a change pod, applied to a change pod that is made, fails to be
-- submitted, and is closed.
use altershield_operator.Base.{refl, [], ◌∷◌, inl, ◌≤◌}
use altershield_operator.Types.State.{
  execute_init, pre_wait, pre_failed, execute_done, running, post_submitted,
}
use altershield_operator.ChangePods.Reconcile.{
  dispatch, pre_wait_handle, handle_finished_change_pod,
}
use altershield_operator.Exec.{◌>>=◌}
use altershield_operator.Base.Labels.{has_label}
use altershield_operator.Lifecycle.{Step}
use altershield_operator.Lifecycle.Refinement.{Move, reconciled, History, born, then, Move-Step}
use altershield_operator.Lifecycle.Courses.{IsCourse, course-IsCourse}
use altershield_operator.Witnesses.Sample.{change_pod_in, workload_in, api, world, summary}
use altershield_operator.Lifecycle.Delivery.{IsDelivered, verdict-IsDelivered}
use altershield_operator.Types.{ChangePod}
use altershield_operator.Types.Opscloud.{CallbackRequest}

filled : Move api execute_init pre_wait
unfolding dispatch ◌>>=◌ has_label
filled =
    reconciled (change_pod_in execute_init []) (workload_in running "web-v1") tt pre_wait (inl refl)

not_submitted : Move api pre_wait pre_failed
unfolding dispatch ◌>>=◌ pre_wait_handle
not_submitted =
    reconciled (change_pod_in pre_wait []) (workload_in running "web-v1") tt pre_failed (inl refl)

closed : Move api pre_failed execute_done
unfolding dispatch ◌>>=◌ handle_finished_change_pod
closed =
    reconciled (change_pod_in pre_failed []) (workload_in running "web-v1") tt execute_done
      (inl refl)

short_life : History api execute_init execute_done 3
short_life = then (then (then born filled) not_submitted) closed

Move-Step_example : Step pre_wait pre_failed
Move-Step_example = Move-Step api not_submitted

course-IsCourse_example :
    IsCourse execute_done (execute_done ∷ pre_failed ∷ pre_wait ∷ []) × (3 ≤ 6)
unfolding short_life
course-IsCourse_example = course-IsCourse api short_life

abbrev verdict : CallbackRequest
verdict = record {
  node_id = "node";
  change_scene_key = "";
  biz_exec_order_id = "web-v1";
  verdict = record { verdict = "pass"; msg = ""; node_id = "node" };
  defense_stage_enum = "POST";
}

abbrev submitted : ChangePod
submitted = change_pod_in post_submitted (summary "a" "" ∷ summary "b" "" ∷ [])

verdict-IsDelivered_example :
    (patched : ChangePod) × (closed : ChangePod) × IsDelivered api verdict submitted
      (workload_in running "web-v1")
      world
      world
      patched
      closed
verdict-IsDelivered_example =
    verdict-IsDelivered api verdict submitted (workload_in running "web-v1") world world refl refl
