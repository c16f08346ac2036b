-- ===== src/Workloads/Query.antt =====
-- What the change workload controller reads.
use altershield_operator.Base.{
  String, Bool, false, List, [], ◌∷◌, Option, none, some, if◌then◌else◌, ◌==◌, length, keep, ltb,
}
use altershield_operator.Base.Int.{pos, leb_ℤ}
use altershield_operator.Base.Labels.{nil, label, insert}
use altershield_operator.Exec.{done, failed, Exec, pure, ask, attempt, ◌>>=◌}
use altershield_operator.Client.{Client}
use altershield_operator.Predicates.{
  filter_pod_without_finished_label, filter_pod_without_finished_or_defensed_label,
}
use altershield_operator.Types.{
  ChangePod, ChangeWorkload, Deployment, ReplicaSet, Pod, OwnerReference,
}
use altershield_operator.Types.State.{is_execute_done}
use altershield_operator.Utils.Pods.{MapOf}
use altershield_operator.Utils.Constants.{
  admission_webhook_version_label, change_pod_field_change_workload_id, deployment_kind,
}

-- The name of the first owner of a kind: the loops over owner references stop at it.
unfoldable pub first_owner : String → List OwnerReference → Option String
first_owner kind [] = none
first_owner kind (r ∷ rs) = if r.kind == kind then some r.name else first_owner kind rs

-- `&appsv1.Deployment{}`
abbrev pub empty_deployment : Deployment
empty_deployment = record {
  namespace = "";
  name = "";
  labels = nil;
  owner_references = [];
  spec_replicas = none;
  match_labels = nil;
  template_labels = nil;
  template_spec = "";
  paused = false;
  replicas = pos 0;
  ready_replicas = pos 0;
  available_replicas = pos 0;
  updated_replicas = pos 0;
}

-- `&appsv1.ReplicaSet{}`
abbrev pub empty_replica_set : ReplicaSet
empty_replica_set = record {
  namespace = "";
  name = "";
  owner_references = [];
  template_labels = nil;
  template_spec = "";
  replicas = pos 0;
  ready_replicas = pos 0;
  available_replicas = pos 0;
}

-- `for _, pod := range podArray { podMap[pod.Name] = pod }`
unfoldable pub pod_map : MapOf Pod → List Pod → MapOf Pod
pod_map m [] = m
pod_map m (pod ∷ pods) = pod_map (insert pod.name pod m) pods

-- The filter of `getFinishedChangePodsByWorkload`.
unfoldable pub executed_done_change_pods : List ChangePod → List ChangePod
executed_done_change_pods c = keep (λ d. is_execute_done d.status.status) c

module _ {S : Type 0} (api : Client S) where
  -- `getAllChangePodsByWorkload`
  unfoldable pub get_all_change_pods_by_workload : ChangeWorkload → Exec S (List ChangePod)
  get_all_change_pods_by_workload w =
      ask (api.list_change_pods_in w.namespace change_pod_field_change_workload_id w.name)

  -- `getFinishedChangePodsByWorkload`
  unfoldable pub get_finished_change_pods_by_workload : ChangeWorkload → Exec S (List ChangePod)
  unfolding get_all_change_pods_by_workload executed_done_change_pods
  get_finished_change_pods_by_workload w = do
    change_pods ← get_all_change_pods_by_workload w
    pure (executed_done_change_pods change_pods)

  -- `getAllPodsByVersion`
  unfoldable pub get_all_pods_by_version : String → String → Exec S (List Pod)
  get_all_pods_by_version ns version =
      ask (api.list_pods ns ((admission_webhook_version_label, version) ∷ []))

  -- `getAllPodsByWorkload`
  unfoldable pub get_all_pods_by_workload : ChangeWorkload → Exec S (List Pod)
  unfolding get_all_pods_by_version label
  get_all_pods_by_workload w =
      get_all_pods_by_version w.namespace (label admission_webhook_version_label w.labels)

  -- `getFinishedPodsByWorkload`
  unfoldable pub get_finished_pods_by_workload : ChangeWorkload → Exec S (List Pod)
  unfolding get_all_pods_by_workload
  get_finished_pods_by_workload w = do
    array ← get_all_pods_by_workload w
    pure (filter_pod_without_finished_label array)

  -- `getFinishedWithoutDefensedPodsByWorkload`
  unfoldable pub get_finished_without_defensed_pods_by_workload : ChangeWorkload → Exec S (List Pod)
  unfolding get_all_pods_by_workload
  get_finished_without_defensed_pods_by_workload w = do
    array ← get_all_pods_by_workload w
    pure (filter_pod_without_finished_or_defensed_label array)

  -- `getAllPodMapByWorkload`
  unfoldable pub get_all_pod_map_by_workload : ChangeWorkload → Exec S (MapOf Pod)
  unfolding get_all_pods_by_version pod_map label
  get_all_pod_map_by_workload w = do
    array ← get_all_pods_by_version w.namespace (label admission_webhook_version_label w.labels)
    pure (pod_map [] array)

  -- `isDefensePreparingPodsThresholdReached`: an error counts as not reached.
  unfoldable pub is_defense_preparing_pods_threshold_reached : ChangeWorkload → Exec S Bool
  unfolding get_finished_without_defensed_pods_by_workload
  is_defense_preparing_pods_threshold_reached w = do
    reply ← attempt (get_finished_without_defensed_pods_by_workload w)
    elim reply [
      | failed e ↦ pure false
      | done pods ↦ pure (leb_ℤ w.spec.count_threshold (pos (length pods)))
    ]

  -- `isDefensePreparingPodsExist`: an error counts as none.
  unfoldable pub is_defense_preparing_pods_exist : ChangeWorkload → Exec S Bool
  unfolding get_finished_without_defensed_pods_by_workload
  is_defense_preparing_pods_exist w = do
    reply ← attempt (get_finished_without_defensed_pods_by_workload w)
    elim reply [ failed e ↦ pure false | done pods ↦ pure (ltb 0 (length pods)) ]

  -- The deployment of a namespace by the name of an owner, and an empty one without an owner.
  unfoldable pub get_owner_deployment : String → Option String → Exec S Deployment
  get_owner_deployment ns none = pure empty_deployment
  get_owner_deployment ns (some name) =
      ask (api.get_deployment (record { namespace = ns; name = name }))

  -- `getDeploymentByWorkload`
  unfoldable pub get_deployment_by_workload : ChangeWorkload → Exec S Deployment
  unfolding get_owner_deployment first_owner
  get_deployment_by_workload w =
      get_owner_deployment w.namespace (first_owner deployment_kind w.owner_references)
