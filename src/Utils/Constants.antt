-- ===== src/Utils/Constants.antt =====
-- controllers/utils/string_constant.go, number_constant.go, controllers/utils/native/native_utils.go.
use altershield_operator.Base.{String}
use altershield_operator.Base.Int.{ℤ, pos}

abbrev pub operate_finished_label : String
operate_finished_label = "altershield.defense.antgroup.com/operate-finished"

abbrev pub defense_status_label : String
defense_status_label = "altershield.defense.antgroup.com/defense-status"

abbrev pub suspend_label : String
suspend_label = "altershield.defense.antgroup.com/suspend"

abbrev pub ignored_suspend_label : String
ignored_suspend_label = "altershield.defense.antgroup.com/ignored-suspend"

abbrev pub admission_webhook_version_label : String
admission_webhook_version_label = "admission-webhook-altershield.antgroup.com/version"

abbrev pub deployment_name_label : String
deployment_name_label = "app.kubernetes.io/deployment-name"

abbrev pub admission_webhook_namespace_label : String
admission_webhook_namespace_label = "admission-webhook-altershield"

abbrev pub defense_status_label_processed : String
defense_status_label_processed = "processed"

abbrev pub change_pod_verdict_pass : String
change_pod_verdict_pass = "pass"

abbrev pub deployment_kind : String
deployment_kind = "Deployment"

abbrev pub replica_set_kind : String
replica_set_kind = "ReplicaSet"

abbrev pub meta_mark : String
meta_mark = "--x--"

abbrev pub resource_type_pod : String
resource_type_pod = "[**pod**]"

abbrev pub resource_type_change_pod : String
resource_type_change_pod = "[**changepod**]"

abbrev pub operator_namespace : String
operator_namespace = "altershieldoperator-system"

abbrev pub config_type_is_branch : String
config_type_is_branch = "isBranch"

abbrev pub config_name_is_branch : String
config_name_is_branch = "branch"

abbrev pub config_type_is_blocking_up : String
config_type_is_blocking_up = "isBlockingUp"

abbrev pub config_name_is_blocking_up : String
config_name_is_blocking_up = "blocking"

abbrev pub change_pod_field_status : String
change_pod_field_status = "changePod.status"

abbrev pub change_pod_field_change_pod_id : String
change_pod_field_change_pod_id = "changePod.changePodId"

abbrev pub change_pod_field_change_workload_id : String
change_pod_field_change_workload_id = "changePod.changeWorkloadId"

abbrev pub change_workload_field_status : String
change_workload_field_status = "changeWorkload.status"

abbrev pub time_layout : String
time_layout = "2006-01-02 15:04:05"

-- Seconds.
abbrev pub change_workload_wait_time_threshold : ℤ
change_workload_wait_time_threshold = pos 60

abbrev pub change_pod_pre_timeout_threshold : ℤ
change_pod_pre_timeout_threshold = pos 120

abbrev pub change_pod_post_timeout_threshold : ℤ
change_pod_post_timeout_threshold = pos 120
