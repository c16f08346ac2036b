-- ===== src/Types/Opscloud.antt =====
-- The requests and results of controllers/client/opscloud_client.go.
use altershield_operator.Base.{String, ℕ, Bool, List, Option}

-- `Domain` is an `interface{}`: a JSON object by its entries, each with its value printed by
-- `fmt.Sprint` and `none` for null, or anything else.
pub data Domain : Type 0 where
  object : List (String × Option String) → Domain
  no_object : Domain

pub record OpsCloudResult : Type 0 where
  pub success : Bool
  pub result_code : String
  pub msg : String
  pub domain : Domain

pub record ExecOrderRequest : Type 0 where
  pub biz_exec_order_id : String
  pub platform : String
  pub change_scene_key : String
  pub change_apps : List String
  pub change_param_json : String
  pub change_phases : List String
  pub change_scenario_code : String
  pub change_title : String
  pub change_url : String
  pub creator : String
  pub change_contents : List (String × String)
  pub tldc_tenant_code : String

pub record StartNotifyRequest : Type 0 where
  pub platform : String
  pub biz_exec_order_id : String
  pub change_scene_key : String
  pub batch_no : ℕ
  pub change_phase : String
  pub effective_target_type : String
  pub effective_target_locations : List String
  pub executor : String
  pub total_batch_num : ℕ
  pub total_batch_num_in_change_phase : ℕ
  pub tldc_tenant_code : String

pub record FinishNotifyRequest : Type 0 where
  pub biz_exec_order_id : String
  pub change_scene_key : String
  pub node_id : String
  pub platform : String
  pub service_result : String
  pub success : Bool
  pub tldc_tenant_code : String

pub data Request : Type 0 where
  exec_order : ExecOrderRequest → Request
  start_notify : StartNotifyRequest → Request
  finish_notify : FinishNotifyRequest → Request

-- The callback that the service sends.
pub record CheckVerdict : Type 0 where
  pub verdict : String
  pub msg : String
  pub node_id : String

pub record CallbackRequest : Type 0 where
  pub node_id : String
  pub change_scene_key : String
  pub biz_exec_order_id : String
  pub verdict : CheckVerdict
  pub defense_stage_enum : String

pub record CallbackWrapperRequest : Type 0 where
  pub change_check_type : String
  pub callback_request : CallbackRequest
