-- ===== src/Client.antt =====
-- What lies outside the operator: the API server behind controller-runtime's client, the clock, the
-- publishing service that opscloud_client.go posts to. It is a parameter of every definition that
-- uses it: a state and, for each call, a function to its answer and the next state. Nothing is
-- assumed of it here, so other writers, conflicts and failures are among its answers.
use altershield_operator.Base.{String, Bool, List}
use altershield_operator.Base.Int.{ℤ}
use altershield_operator.Base.Labels.{Labels}
use altershield_operator.Types.{
  NamespacedName, Pod, ReplicaSet, Deployment, ChangePod, ChangeWorkload, OpsConfigInfo, PodSummary,
}
use altershield_operator.Types.Opscloud.{Request, OpsCloudResult}
use altershield_operator.Exec.{Reply}

-- `client.MatchingLabels`
abbrev pub Selector : Type 0
Selector = List (String × String)

pub record Client (S : Type 0) : Type 0 where
  -- `time.Now().Unix()` and `time.Now().Format(layout)`
  pub now : S → ℤ × S
  pub now_text : String → S → String × S
  -- `t.Before(now - 2 minutes)` of a start time in Unix seconds
  pub is_over_timeout : ℤ → S → Bool × S
  -- the values of a Go map in the order in which `range` gives them, from those in the order of
  -- insertion
  pub range_pods : List Pod → S → List Pod × S
  -- what the configuration getters of config.go return, once they have waited for the value
  pub is_batch : S → Bool × S
  pub batch_count : S → ℤ × S
  pub is_blocking_up : S → Bool × S
  -- `Get`
  pub get_pod : NamespacedName → S → Reply Pod × S
  pub get_replica_set : NamespacedName → S → Reply ReplicaSet × S
  pub get_deployment : NamespacedName → S → Reply Deployment × S
  pub get_change_pod : NamespacedName → S → Reply ChangePod × S
  pub get_workload : NamespacedName → S → Reply ChangeWorkload × S
  pub get_config : NamespacedName → S → Reply OpsConfigInfo × S
  -- `List`: in a namespace by labels, or by the value of an indexed field
  pub list_pods : String → Selector → S → Reply (List Pod) × S
  pub list_replica_sets : String → Selector → S → Reply (List ReplicaSet) × S
  pub list_suspended : String → String → S → Reply (List Deployment) × S
  pub list_workloads : String → Selector → S → Reply (List ChangeWorkload) × S
  pub list_namespaces : Selector → S → Reply (List String) × S
  pub list_change_pods_in : String → String → String → S → Reply (List ChangePod) × S
  pub list_change_pods : String → String → S → Reply (List ChangePod) × S
  pub list_workloads_by : String → String → S → Reply (List ChangeWorkload) × S
  -- `Create`, `Update`, `Patch` and `Delete`, which answer with the object that the server stored
  pub create_change_pod : ChangePod → S → Reply ChangePod × S
  pub create_workload : ChangeWorkload → S → Reply ChangeWorkload × S
  pub create_config : OpsConfigInfo → S → Reply OpsConfigInfo × S
  pub update_pod : Pod → S → Reply Pod × S
  pub update_deployment : Deployment → S → Reply Deployment × S
  pub update_change_pod : ChangePod → S → Reply ChangePod × S
  pub patch_pod : Pod → Pod → S → Reply Pod × S
  pub patch_deployment : Deployment → Deployment → S → Reply Deployment × S
  pub delete_change_pod : ChangePod → S → Reply (Unit {0}) × S
  pub delete_workload : ChangeWorkload → S → Reply (Unit {0}) × S
  pub delete_config : OpsConfigInfo → S → Reply (Unit {0}) × S
  -- `Status().Update` and `Status().Patch`
  pub update_change_pod_status : ChangePod → S → Reply ChangePod × S
  pub patch_change_pod_status : ChangePod → ChangePod → S → Reply ChangePod × S
  pub update_workload_status : ChangeWorkload → S → Reply ChangeWorkload × S
  pub patch_workload_status : ChangeWorkload → ChangeWorkload → S → Reply ChangeWorkload × S
  -- `(&http.Client{}).Do(req)` of a POST with its URI, headers and body, and `io.ReadAll(resp.Body)`,
  -- where a response is known by a text
  pub http_do : String → Selector → String → S → Reply String × S
  pub read_all : String → S → Reply String × S
  -- `json.Marshal` of a request and of a pod summary, `json.Unmarshal` of a result, and the digest
  -- of `sign`: SHA-256 in base64, in upper case
  pub marshal : Request → String
  pub marshal_summary : PodSummary → String
  pub unmarshal : String → Reply OpsCloudResult
  pub digest : String → String
  -- the MD5 digest, in hexadecimal, of the JSON of a pod template, given by its labels and the rest
  pub template_hash : Labels → String → String
  -- `strconv.FormatInt(n, 10)` and `strconv.Atoi`
  pub format_int : ℤ → String
  pub atoi : String → Reply ℤ
  -- `controllerutil.SetControllerReference`, whose error the code only logs
  pub own_change_pod : ChangeWorkload → ChangePod → ChangePod
  pub own_workload : Deployment → ChangeWorkload → ChangeWorkload
