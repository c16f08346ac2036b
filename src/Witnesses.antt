-- ===== src/Witnesses.antt =====
-- Each theorem about the program, applied to concrete objects and to a server that answers with them.
mod Sample
mod Batches
mod Successes
mod Processed
mod Handovers
mod Rounds
mod Rollbacks
mod Releases
mod Lives
mod Requests
mod Starts
mod Helpers
use altershield_operator.Base.{
  String, ◌≡◌, ◌↔◌, ◌⊎◌, ◌==◌, refl, arith, true, false, [], ◌∷◌, inl, none, some,
}
use altershield_operator.Base.Int.{pos}
use altershield_operator.Base.Labels.{nil, made, has_label, label}
use altershield_operator.Calls.{respond, delete_workload}
use altershield_operator.Client.{Client}
use altershield_operator.Exec.{done, ok}
use altershield_operator.Exec.Issues.{Issues}
use altershield_operator.Types.{Deployment}
use altershield_operator.Types.Opscloud.{CallbackRequest, CallbackWrapperRequest, start_notify}
use Requests.{notify}
use altershield_operator.Types.State.{execute_init, success, running}
use altershield_operator.ChangePods.Batches.{
  FillsWithin, Marks, execute_init_handle-FillsWithin, execute_init_handle-Marks,
}
use altershield_operator.ChangePods.Reconcile.{execute_init_handle}
use altershield_operator.ChangePods.Transitions.{Follows, dispatch-Follows}
use altershield_operator.Callback.{stage, check_type_batch, check_callback_handler}
use altershield_operator.Callback.Effects.{Answers, stage-Answers, answers_twice}
use altershield_operator.Config.{batch_value, count_value, config_run, initial}
use altershield_operator.Config.Last.{given, config_run_last}
use altershield_operator.Deployments.{defense_processed_deployment}
use altershield_operator.Deployments.Admission.{
  IsAdmitted, IsDenied, add_or_remove_deployment_suspend_label-IsAdmitted,
  defense_processed_deployment-IsDenied,
}
use altershield_operator.Opscloud.{do_post}
use altershield_operator.Opscloud.Retry.{IsPosted, do_post-IsPosted}
use altershield_operator.Utils.Constants.{admission_webhook_version_label}
use altershield_operator.Webhook.{mutate, patched, allowed, crashed}
use altershield_operator.Webhook.Versions.{IsVersioned, mutate-IsVersioned, mutate_settles, version}
use altershield_operator.Webhook.Crashes.{mutate-crashes}
use altershield_operator.Workloads.Handlers.{delete_others}
use altershield_operator.Workloads.Suspend.{add_or_remove_deployment_suspend_label}
use altershield_operator.Workloads.Permissions.{Permitted}
use altershield_operator.Workloads.Writes.{dispatch-Permitted, delete_others_lem}
use altershield_operator.ChangePods.Reconcile as Pods
use altershield_operator.Workloads.Handlers as Handlers
use Sample.{
  summary, change_pod_in, workload_in, deployment_with, suspended_deployment, plain_deployment, api,
  world, a_then_b, answers, server,
}

dispatch-Follows_example :
    Issues (Follows execute_init) (
      Pods.dispatch api execute_init (change_pod_in execute_init []) (workload_in running "web-v1"))
dispatch-Follows_example =
    dispatch-Follows api execute_init (change_pod_in execute_init []) (workload_in running "web-v1")
      refl

dispatch-Permitted_example :
    Issues
      (Permitted api (workload_in success "web-v1"))
      (Handlers.dispatch api success (workload_in success "web-v1"))
dispatch-Permitted_example = dispatch-Permitted api (workload_in success "web-v1")

execute_init_handle-FillsWithin_example :
    Issues
      (FillsWithin api 2 (change_pod_in execute_init []))
      (execute_init_handle api (change_pod_in execute_init []) (workload_in running "web-v1"))
execute_init_handle-FillsWithin_example =
    execute_init_handle-FillsWithin api (change_pod_in execute_init [])
      (workload_in running "web-v1") 2 refl

execute_init_handle-Marks_example : Issues Marks (
    execute_init_handle api
      (change_pod_in execute_init (summary "a" "" ∷ []))
      (workload_in running "web-v1"))
execute_init_handle-Marks_example =
    execute_init_handle-Marks api (change_pod_in execute_init (summary "a" "" ∷ []))
      (workload_in running "web-v1") (λ e. cc)

abbrev callback_of : String → CallbackRequest
callback_of stage = record {
  node_id = "node";
  change_scene_key = "";
  biz_exec_order_id = "";
  verdict = record { verdict = "pass"; msg = ""; node_id = "node" };
  defense_stage_enum = stage;
}

stage-Answers_example :
    Issues
      (Answers (callback_of "POST") (change_pod_in execute_init a_then_b))
      (stage api (callback_of "POST") (change_pod_in execute_init a_then_b))
stage-Answers_example = stage-Answers api (callback_of "POST") (change_pod_in execute_init a_then_b)

abbrev empty_server : Client (Unit {0})
empty_server = record (server {S = Unit {0}}) { list_change_pods = λ field value. answers [] }

abbrev unknown_node : CallbackWrapperRequest
unknown_node = record { change_check_type = check_type_batch; callback_request = callback_of "PRE" }

answers_twice_example :
    (check_callback_handler empty_server
      (done unknown_node)
      (record { server = tt; issued = [] })).1.issued
    ≡ respond 200 ∷ respond 200 ∷ []
answers_twice_example =
    answers_twice empty_server unknown_node (record { server = tt; issued = [] }) refl (inl refl)
      refl

config_run_last_example :
    given (config_run initial (batch_value true ∷ count_value (pos 50) ∷ batch_value false ∷ []))
    ≡ (some false, some (pos 50), none)
config_run_last_example =
    config_run_last (batch_value true ∷ count_value (pos 50) ∷ batch_value false ∷ [])

add_or_remove_deployment_suspend_label-IsAdmitted_example :
    Issues IsAdmitted (add_or_remove_deployment_suspend_label api suspended_deployment false)
add_or_remove_deployment_suspend_label-IsAdmitted_example =
    add_or_remove_deployment_suspend_label-IsAdmitted api suspended_deployment false

defense_processed_deployment-IsDenied_example :
    Issues IsDenied (defense_processed_deployment api suspended_deployment)
unfolding has_label
defense_processed_deployment-IsDenied_example =
    defense_processed_deployment-IsDenied api suspended_deployment refl

do_post-IsPosted_example : IsPosted api world.issued (do_post api "uri" (start_notify notify) world)
do_post-IsPosted_example = do_post-IsPosted api "uri" (start_notify notify) world

abbrev plain_patched : Deployment
plain_patched = record plain_deployment {
  labels = made ((admission_webhook_version_label, "v2") ∷ []);
  template_labels = made ((admission_webhook_version_label, "v2") ∷ []);
}

plain_is_patched : mutate api plain_deployment ≡ patched plain_patched
unfolding mutate
plain_is_patched = refl

mutate-IsVersioned_example : IsVersioned api plain_deployment (plain_patched)
mutate-IsVersioned_example = mutate-IsVersioned api plain_deployment plain_patched plain_is_patched

mutate_settles_example : mutate api plain_patched ≡ allowed
mutate_settles_example = mutate_settles api plain_deployment plain_patched plain_is_patched

abbrev unlabelled : Deployment
unlabelled = deployment_with nil

mutate-crashes_example : (mutate api unlabelled ≡ crashed) ↔ (
    ((label admission_webhook_version_label unlabelled.labels == version api unlabelled) ≡ false)
    × ((unlabelled.labels ≡ nil) ⊎ (unlabelled.template_labels ≡ nil)))
mutate-crashes_example = mutate-crashes api unlabelled

delete_others_lem_example :
    let ws = workload_in success "web-v0" ∷ workload_in running "web-v1" ∷ [] in
    let (o, w) = delete_others api "web-v1" ws world in
    (o ≡ ok tt) × (w.issued ≡ delete_workload (workload_in success "web-v0") ∷ [])
delete_others_lem_example =
    delete_others_lem api "web-v1"
      (workload_in success "web-v0" ∷ workload_in running "web-v1" ∷ []) world
