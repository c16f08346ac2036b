-- ===== src/Types.antt =====
-- The objects: the custom resources of apis/app.ops.cloud.alipay.com/v1alpha1, and of the Kubernetes
-- objects the fields that the operator reads or writes. Times are Unix seconds and their texts; `int`
-- and `int64` fields are signed integers.
pub mod State
pub mod Opscloud
use altershield_operator.Base.{String, Bool, List, Option}
use altershield_operator.Base.Int.{ℤ}
use altershield_operator.Base.Labels.{Labels}
use State.{ChangePodState, WorkloadState}

pub record NamespacedName : Type 0 where
  pub namespace : String
  pub name : String

pub record OwnerReference : Type 0 where
  pub kind : String
  pub name : String

pub record PodSummary : Type 0 where
  pub app : String
  pub hostname : String
  pub workspace : String
  pub pod : String
  pub ip : String
  pub namespace : String
  pub verdict : String
  pub message : String

pub record ChangePodSpec : Type 0 where
  pub pod_infos : List PodSummary
  pub create_time : String
  pub create_time_unix : ℤ
  pub change_workload_id : String

-- `message` repeats a status, or is empty as `execute_init` is.
pub record ChangePodStatus : Type 0 where
  pub status : ChangePodState
  pub update_time : String
  pub update_time_unix : ℤ
  pub pod_results : List PodSummary
  pub message : ChangePodState
  pub change_pod_id : String
  pub pre_submit_time : String
  pub pre_submit_time_unix : ℤ
  pub post_submit_time : String
  pub post_submit_time_unix : ℤ
  pub pre_timeout_threshold : ℤ
  pub post_timeout_threshold : ℤ

pub record ChangePod : Type 0 where
  pub namespace : String
  pub name : String
  pub labels : Labels
  pub spec : ChangePodSpec
  pub status : ChangePodStatus

pub record ChangeWorkloadSpec : Type 0 where
  pub change_workload_id : String
  pub service_name : String
  pub reversion : String
  pub count_threshold : ℤ
  pub wait_time_threshold : ℤ
  pub create_time : String
  pub create_time_unix : ℤ
  pub app_name : String

pub record ChangeWorkloadStatus : Type 0 where
  pub defense_preparing_pods : List PodSummary
  pub defense_checking_pods : List PodSummary
  pub defense_check_pass_pods : List PodSummary
  pub defense_check_fail_pods : List PodSummary
  pub status : WorkloadState
  pub entry_time : String
  pub entry_time_unix : ℤ
  pub update_time : String
  pub update_time_unix : ℤ

pub record ChangeWorkload : Type 0 where
  pub namespace : String
  pub name : String
  pub labels : Labels
  pub owner_references : List OwnerReference
  pub spec : ChangeWorkloadSpec
  pub status : ChangeWorkloadStatus

pub record OpsConfigInfo : Type 0 where
  pub namespace : String
  pub name : String
  pub type : String
  pub content : String
  pub remark : String
  pub enable : Bool

pub record Pod : Type 0 where
  pub namespace : String
  pub name : String
  pub labels : Labels
  pub owner_references : List OwnerReference
  pub phase : String
  pub pod_ip : String
  pub start_time : Option ℤ

pub record ReplicaSet : Type 0 where
  pub namespace : String
  pub name : String
  pub owner_references : List OwnerReference
  pub template_labels : Labels
  pub template_spec : String
  pub replicas : ℤ
  pub ready_replicas : ℤ
  pub available_replicas : ℤ

-- `template_spec` stands for what the pod template holds besides its labels, which the code only
-- copies and hashes; `spec_replicas` is a pointer.
pub record Deployment : Type 0 where
  pub namespace : String
  pub name : String
  pub labels : Labels
  pub owner_references : List OwnerReference
  pub spec_replicas : Option ℤ
  pub match_labels : Labels
  pub template_labels : Labels
  pub template_spec : String
  pub paused : Bool
  pub replicas : ℤ
  pub ready_replicas : ℤ
  pub available_replicas : ℤ
  pub updated_replicas : ℤ

-- The object of an event, by its Go type.
pub data KubeObject : Type 0 where
  a_pod : Pod → KubeObject
  a_change_pod : ChangePod → KubeObject
  a_workload : ChangeWorkload → KubeObject
  a_deployment : Deployment → KubeObject
  another : KubeObject
