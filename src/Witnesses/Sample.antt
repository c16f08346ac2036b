-- ===== src/Witnesses/Sample.antt =====
-- Concrete objects, and a server that always answers with them.
use altershield_operator.Base.{String, true, List, [], ◌∷◌, some}
use altershield_operator.Base.Int.{pos}
use altershield_operator.Base.Labels.{Labels, nil, made}
use altershield_operator.Client.{Client}
use altershield_operator.Exec.{Reply, done, failed, Error, World}
use altershield_operator.Types.{
  Pod, Deployment, ChangePod, ChangeWorkload, OpsConfigInfo, PodSummary,
}
use altershield_operator.Types.State.{ChangePodState, WorkloadState, execute_init, running, success}
use altershield_operator.Workloads.Query.{empty_deployment, empty_replica_set}
use altershield_operator.Utils.Constants.{
  suspend_label, admission_webhook_version_label, operate_finished_label,
}

abbrev pub summary : String → String → PodSummary
summary pod verdict = record {
  app = "shop";
  hostname = pod;
  workspace = "";
  pod = pod;
  ip = "10.0.0.1";
  namespace = "default";
  verdict = verdict;
  message = "";
}

abbrev pub web_pod : Pod
web_pod = record {
  namespace = "default";
  name = "web-x--1";
  labels = made ((admission_webhook_version_label, "v1") ∷ (operate_finished_label, "true") ∷ []);
  owner_references = [];
  phase = "Running";
  pod_ip = "10.0.0.1";
  start_time = some (pos 100);
}

abbrev pub change_pod_in : ChangePodState → List PodSummary → ChangePod
change_pod_in state infos = record {
  namespace = "default";
  name = "web-v1-x--1";
  labels = nil;
  spec = record {
    pod_infos = infos;
    create_time = "";
    create_time_unix = pos 100;
    change_workload_id = "web-v1";
  };
  status = record {
    status = state;
    update_time = "";
    update_time_unix = pos 100;
    pod_results = summary "a" "pass" ∷ summary "b" "fail" ∷ [];
    message = execute_init;
    change_pod_id = "node";
    pre_submit_time = "";
    pre_submit_time_unix = pos 100;
    post_submit_time = "";
    post_submit_time_unix = pos 100;
    pre_timeout_threshold = pos 60;
    post_timeout_threshold = pos 60;
  };
}

abbrev pub workload_in : WorkloadState → String → ChangeWorkload
workload_in state name = record {
  namespace = "default";
  name = name;
  labels = made ((admission_webhook_version_label, "v1") ∷ []);
  owner_references = [];
  spec = record {
    change_workload_id = name;
    service_name = "web";
    reversion = "v1";
    count_threshold = pos 2;
    wait_time_threshold = pos 60;
    create_time = "";
    create_time_unix = pos 100;
    app_name = "web";
  };
  status = record {
    defense_preparing_pods = summary "a" "" ∷ [];
    defense_checking_pods = [];
    defense_check_pass_pods = [];
    defense_check_fail_pods = [];
    status = state;
    entry_time = "";
    entry_time_unix = pos 100;
    update_time = "";
    update_time_unix = pos 100;
  };
}

abbrev pub deployment_with : Labels → Deployment
deployment_with l = record empty_deployment {
  name = "web";
  namespace = "default";
  labels = l;
  template_labels = made [];
  spec_replicas = some (pos 4);
}

abbrev pub suspended_deployment : Deployment
suspended_deployment = deployment_with (made ((suspend_label, "100") ∷ []))

abbrev pub plain_deployment : Deployment
plain_deployment = deployment_with (made [])

abbrev pub config_info : OpsConfigInfo
config_info = record {
  namespace = "default";
  name = "config";
  type = "";
  content = "";
  remark = "";
  enable = true;
}

abbrev pub missing : Error
missing = record { not_found = true; message = "not found" }

abbrev pub answers : {S A : Type 0} → A → S → Reply A × S
answers a s = (done a, s)

abbrev pub gives : {S A : Type 0} → A → S → A × S
gives a s = (a, s)

-- The server, whatever its state is.
abbrev pub server : {S : Type 0} → Client S
server = record {
  now = gives (pos 1000);
  now_text = λ layout. gives "2024-01-01";
  is_over_timeout = λ start. gives true;
  range_pods = λ pods. gives pods;
  is_batch = gives true;
  batch_count = gives (pos 50);
  is_blocking_up = gives true;
  get_pod = λ key. answers web_pod;
  get_replica_set = λ key. answers empty_replica_set;
  get_deployment = λ key. answers suspended_deployment;
  get_change_pod = λ key. answers (change_pod_in execute_init []);
  get_workload = λ key. answers (workload_in running "web-v1");
  get_config = λ key. answers config_info;
  list_pods = λ ns l. answers (web_pod ∷ []);
  list_replica_sets = λ ns l. answers [];
  list_suspended = λ ns l. answers (suspended_deployment ∷ []);
  list_workloads =
      λ ns l. answers (workload_in success "web-v0" ∷ workload_in running "web-v1" ∷ []);
  list_namespaces = λ l. answers ("default" ∷ []);
  list_change_pods_in = λ ns field value. answers [];
  list_change_pods = λ field value. answers (change_pod_in execute_init [] ∷ []);
  list_workloads_by = λ field value. answers (workload_in running "web-v1" ∷ []);
  create_change_pod = λ c. answers c;
  create_workload = λ w. answers w;
  create_config = λ c. answers c;
  update_pod = λ p. answers p;
  update_deployment = λ d. answers d;
  update_change_pod = λ c. answers c;
  patch_pod = λ a b. answers b;
  patch_deployment = λ a b. answers b;
  delete_change_pod = λ c. answers tt;
  delete_workload = λ w s. (failed missing, s);
  delete_config = λ c. answers tt;
  update_change_pod_status = λ c. answers c;
  patch_change_pod_status = λ a b. answers b;
  update_workload_status = λ w. answers w;
  patch_workload_status = λ a b. answers b;
  http_do = λ uri headers body s. (failed missing, s);
  read_all = λ resp. answers "";
  marshal = λ r. "";
  marshal_summary = λ p. "";
  unmarshal = λ text. failed missing;
  digest = λ text. text;
  template_hash = λ l spec. "v2";
  format_int = λ n. "1";
  atoi = λ text. failed missing;
  own_change_pod = λ w c. c;
  own_workload = λ d w. w;
}

abbrev pub api : Client (Unit {0})
api = server

abbrev pub world : World (Unit {0})
world = record { server = tt; issued = [] }

abbrev pub a_then_b : List PodSummary
a_then_b = summary "a" "pass" ∷ summary "b" "pass" ∷ []
