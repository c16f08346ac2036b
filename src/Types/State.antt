-- ===== src/Types/State.antt =====
-- The status strings of changepod_types.go and changeworkload_types.go. Any other string, which only
-- another writer of the resource can set, is `other_state`.
use altershield_operator.Base.{String, Bool, true, false}

pub data ChangePodState : Type 0 where
  execute_init pre_wait pre_submitted pre_timeout pre_failed : ChangePodState
  post_wait post_submitted post_finish post_timeout post_failed execute_done : ChangePodState
  other_state : String → ChangePodState

pub data WorkloadState : Type 0 where
  init running success failed suspend time_out_pre_threshold : WorkloadState
  other_workload_state : String → WorkloadState

abbrev pub change_pod_text : ChangePodState → String
change_pod_text execute_init = ""
change_pod_text pre_wait = "PreWait"
change_pod_text pre_submitted = "PreSubmitted"
change_pod_text pre_timeout = "PreTimeout"
change_pod_text pre_failed = "PreFailed"
change_pod_text post_wait = "PostWait"
change_pod_text post_submitted = "PostSubmitted"
change_pod_text post_finish = "PostFinish"
change_pod_text post_timeout = "PostTimeout"
change_pod_text post_failed = "PostFailed"
change_pod_text execute_done = "ExecuteDone"
change_pod_text (other_state s) = s

abbrev pub workload_text : WorkloadState → String
workload_text init = ""
workload_text running = "Running"
workload_text success = "Success"
workload_text failed = "Failed"
workload_text suspend = "Suspend"
workload_text time_out_pre_threshold = "TimeOutPreThreshold"
workload_text (other_workload_state s) = s

-- Comparisons with one constant, as the code makes them.
abbrev pub is_execute_init : ChangePodState → Bool
is_execute_init execute_init = true
is_execute_init _ = false

abbrev pub is_pre_wait : ChangePodState → Bool
is_pre_wait pre_wait = true
is_pre_wait _ = false

abbrev pub is_pre_submitted : ChangePodState → Bool
is_pre_submitted pre_submitted = true
is_pre_submitted _ = false

abbrev pub is_post_submitted : ChangePodState → Bool
is_post_submitted post_submitted = true
is_post_submitted _ = false

abbrev pub is_execute_done : ChangePodState → Bool
is_execute_done execute_done = true
is_execute_done _ = false

abbrev pub is_init : WorkloadState → Bool
is_init init = true
is_init _ = false

abbrev pub is_running : WorkloadState → Bool
is_running running = true
is_running _ = false

abbrev pub is_success : WorkloadState → Bool
is_success success = true
is_success _ = false

abbrev pub is_failed : WorkloadState → Bool
is_failed failed = true
is_failed _ = false
