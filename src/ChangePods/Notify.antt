-- ===== src/ChangePods/Notify.antt =====
-- The notifications that the change pod controller sends to the publishing service.
use altershield_operator.Base.{String, true, false, Option, none, some, map}
use altershield_operator.Base.Labels.{lookup}
use altershield_operator.Exec.{Exec, pure, raise, ◌>>=◌}
use altershield_operator.Client.{Client}
use altershield_operator.Opscloud.{platform, submit_change_start_notify}
use altershield_operator.Types.{ChangePod}
use altershield_operator.Types.Opscloud.{
  StartNotifyRequest, FinishNotifyRequest, Domain, object, no_object,
}

abbrev pub change_phase : String
change_phase = "prod_phase"

abbrev pub default_creator : String
default_creator = "altershieldoperator"

abbrev pub effective_target_type : String
effective_target_type = "paas.pod"

abbrev pub change_scene_key_rolling_update : String
change_scene_key_rolling_update = "com.alipay.cafed.cloudrun.rollingupdate"

abbrev pub default_tldc_tenant_code : String
default_tldc_tenant_code = "MAYITNSC"

-- `domain["nodeId"]`, where the domain is an object that has it and it is not null.
unfoldable pub node_id_of : Domain → Option String
unfolding lookup
node_id_of (object fields) = elim (lookup "nodeId" fields) [ none ↦ none | some value ↦ value ]
node_id_of no_object = none

-- `buildChangeFinishNotifyRequest`
unfoldable pub build_change_finish_notify_request : ChangePod → FinishNotifyRequest
build_change_finish_notify_request c = record {
  biz_exec_order_id = c.spec.change_workload_id;
  change_scene_key = change_scene_key_rolling_update;
  node_id = c.status.change_pod_id;
  platform = platform;
  service_result = "{}";
  success = true;
  tldc_tenant_code = default_tldc_tenant_code;
}

module _ {S : Type 0} (api : Client S) where
  -- `buildChangeStartNotifyRequest`: marshalling a struct of strings does not fail.
  unfoldable pub build_change_start_notify_request : ChangePod → StartNotifyRequest
  build_change_start_notify_request c = record {
    platform = platform;
    biz_exec_order_id = c.spec.change_workload_id;
    change_scene_key = change_scene_key_rolling_update;
    batch_no = 0;
    change_phase = change_phase;
    effective_target_type = effective_target_type;
    effective_target_locations = map api.marshal_summary c.spec.pod_infos;
    executor = default_creator;
    total_batch_num = 0;
    total_batch_num_in_change_phase = 0;
    tldc_tenant_code = default_tldc_tenant_code;
  }

  abbrev pub or_no_node_id : Option String → Exec S String
  or_no_node_id (some id) = pure id
  or_no_node_id none = raise (record {
    not_found = false;
    message = "submitChangeStartNotifyAndGetNodeId get nodeId failed";
  })

  -- `submitChangeStartNotifyAndGetNodeId`
  unfoldable pub submit_change_start_notify_and_get_node_id : ChangePod → Exec S String
  unfolding build_change_start_notify_request node_id_of submit_change_start_notify
  submit_change_start_notify_and_get_node_id c = do
    result ← submit_change_start_notify api (build_change_start_notify_request c)
    or_no_node_id (node_id_of result.domain)
