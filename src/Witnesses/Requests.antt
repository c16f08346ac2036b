-- ===== src/Witnesses/Requests.antt =====
-- The theorems about requests and about the configuration, applied to a request and a record.
use altershield_operator.Base.{◌≡◌, [], ◌∷◌, if◌then◌else◌}
use altershield_operator.Config.{initial, config_run}
use altershield_operator.Exec.{done, failed}
use altershield_operator.Exec.Ends.{Ends}
use altershield_operator.Exec.Issues.{Issues}
use altershield_operator.OpsConfig.{new_ops_config_info_batch}
use altershield_operator.OpsConfig.Values.{
  sent, deleted, is_misplaced, configured, calls_of, with_config-configured,
}
use altershield_operator.Routes.{check_callback, HttpRequest, serve}
use altershield_operator.Routes.Writes.{Serves, serve-Serves}
use altershield_operator.Types.Opscloud.{StartNotifyRequest}
use altershield_operator.Witnesses.Sample.{api, missing}

abbrev pub notify : StartNotifyRequest
notify = record {
  platform = "cafed";
  biz_exec_order_id = "web-v1";
  change_scene_key = "";
  batch_no = 1;
  change_phase = "";
  effective_target_type = "";
  effective_target_locations = [];
  executor = "";
  total_batch_num = 1;
  total_batch_num_in_change_phase = 1;
  tldc_tenant_code = "";
}

abbrev request : HttpRequest
request = record {
  method = "POST";
  origin = "";
  namespace = "default";
  callback = done (record {
    change_check_type = "CHANGE_BATCH";
    callback_request = record {
      node_id = "node";
      change_scene_key = "";
      biz_exec_order_id = "web-v1";
      verdict = record { verdict = "pass"; msg = ""; node_id = "node" };
      defense_stage_enum = "PRE";
    };
  });
  exec_order = failed missing;
  start_notify = done notify;
  finish_notify = failed missing;
}

serve-Serves_example :
    Issues (Serves check_callback) (serve api check_callback request)
    × Ends (serve api check_callback request)
serve-Serves_example = serve-Serves api check_callback request

with_config-configured_example :
    (config_run initial (sent (calls_of api (new_ops_config_info_batch api) tt))
      ≡ configured api (new_ops_config_info_batch api) initial)
    × (deleted (calls_of api (new_ops_config_info_batch api) tt) ≡ (
        if is_misplaced (new_ops_config_info_batch api)
        then new_ops_config_info_batch api ∷ []
        else []))
with_config-configured_example =
    with_config-configured api (new_ops_config_info_batch api) tt initial
