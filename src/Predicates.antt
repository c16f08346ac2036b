-- ===== src/Predicates.antt =====
-- The tests on labels and the filters of controllers/pod_controller.go, deployment_controller.go and
-- changeworkload_controller.go that several controllers share.
use altershield_operator.Base.{Bool, ◌&&◌, not, List, ◌==◌, keep}
use altershield_operator.Base.Labels.{Labels, has_label}
use altershield_operator.Types.{Pod}
use altershield_operator.Utils.Constants.{
  operate_finished_label, defense_status_label, admission_webhook_version_label,
}

-- `isFinished`
unfoldable pub is_finished : Pod → Bool
is_finished pod = has_label operate_finished_label pod.labels

-- `isHasVersion`
unfoldable pub is_has_version : Pod → Bool
is_has_version pod = has_label admission_webhook_version_label pod.labels

-- `isRunning`
unfoldable pub is_running_pod : Pod → Bool
is_running_pod pod = pod.phase == "Running"

-- `isDefensed`
unfoldable pub is_defensed : Labels → Bool
is_defensed l = has_label defense_status_label l

-- `isAdmissionWebhook`
unfoldable pub is_admission_webhook : Labels → Bool
is_admission_webhook l = has_label admission_webhook_version_label l

-- The pods that wait for a batch: finished, and not yet defensed.
unfoldable pub is_preparing : Pod → Bool
unfolding is_finished is_defensed
is_preparing pod = is_finished pod && not (is_defensed pod.labels)

-- `filterPodWithoutFinishedLabel`
unfoldable pub filter_pod_without_finished_label : List Pod → List Pod
unfolding is_finished
filter_pod_without_finished_label items = keep is_finished items

-- `filterPodWithoutFinishedOrDefensedLabel`
unfoldable pub filter_pod_without_finished_or_defensed_label : List Pod → List Pod
unfolding is_preparing
filter_pod_without_finished_or_defensed_label items = keep is_preparing items
