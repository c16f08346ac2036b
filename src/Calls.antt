-- ===== src/Calls.antt =====
-- The writes that the operator issues: each call of the client that changes an object, with the object
-- that it sends (a patch has the object before and after the change), the values it sends on the
-- configuration channels, the requests it posts, and
-- the HTTP responses it writes, by their status codes.
use altershield_operator.Base.{String, ℕ, Bool}
use altershield_operator.Base.Int.{ℤ}
use altershield_operator.Types.{Pod, Deployment, ChangePod, ChangeWorkload, OpsConfigInfo}

pub data Call : Type 0 where
  update_pod : Pod → Call
  patch_pod : Pod → Pod → Call
  update_deployment : Deployment → Call
  patch_deployment : Deployment → Deployment → Call
  create_change_pod : ChangePod → Call
  update_change_pod : ChangePod → Call
  update_change_pod_status : ChangePod → Call
  patch_change_pod_status : ChangePod → ChangePod → Call
  delete_change_pod : ChangePod → Call
  create_workload : ChangeWorkload → Call
  update_workload_status : ChangeWorkload → Call
  patch_workload_status : ChangeWorkload → ChangeWorkload → Call
  delete_workload : ChangeWorkload → Call
  create_config : OpsConfigInfo → Call
  delete_config : OpsConfigInfo → Call
  send_is_batch : Bool → Call
  send_batch_count : ℤ → Call
  send_is_blocking_up : Bool → Call
  post : String → String → Call
  respond : ℕ → Call
