-- ===== src/Workloads/Reconcile.antt =====
-- `Reconcile` of the change workload controller: requests of workloads, and of the pods and change pods
-- that it watches.
use altershield_operator.Base.{String, not, Option, none, some, if◌then◌else◌}
use altershield_operator.Exec.{done, failed, Exec, pure, ask, attempt, ◌>>=◌, ignore_not_found}
use altershield_operator.Client.{Client}
use altershield_operator.Predicates.{is_finished}
use altershield_operator.Types.{
  ChangePod, ChangeWorkload, Deployment, ReplicaSet, Pod, NamespacedName,
}
use altershield_operator.Utils.Constants.{
  admission_webhook_version_label, replica_set_kind, deployment_kind,
}
use altershield_operator.Utils.Names.{
  combine_string, get_pod_request_from_pod_namespace_name, get_resource_type_from_namespace_name,
  is_pod_resource_type, is_change_pod_resource_type,
}
use altershield_operator.Base.Labels.{label}
use altershield_operator.Workloads.Query.{first_owner, empty_replica_set, get_owner_deployment}
use altershield_operator.Workloads.Handlers.{dispatch}

-- `GetChangeWorkloadNameByDeployment`
unfoldable pub get_change_workload_name_by_deployment : Deployment → String
unfolding combine_string label
get_change_workload_name_by_deployment d =
    combine_string d.name (label admission_webhook_version_label d.labels)

module _ {S : Type 0} (api : Client S) where
  unfoldable pub get_owner_replica_set : String → Option String → Exec S ReplicaSet
  get_owner_replica_set ns none = pure empty_replica_set
  get_owner_replica_set ns (some name) =
      ask (api.get_replica_set (record { namespace = ns; name = name }))

  -- `getReplicaSetByPod`
  unfoldable pub get_replica_set_by_pod : Pod → Exec S ReplicaSet
  unfolding get_owner_replica_set first_owner
  get_replica_set_by_pod pod =
      get_owner_replica_set pod.namespace (first_owner replica_set_kind pod.owner_references)

  -- `getDeploymentByReplicaSet`
  unfoldable pub get_deployment_by_replica_set : ReplicaSet → Exec S Deployment
  unfolding get_owner_deployment first_owner
  get_deployment_by_replica_set rs =
      get_owner_deployment api rs.namespace (first_owner deployment_kind rs.owner_references)

  -- `getDeploymentByPod`
  unfoldable pub get_deployment_by_pod : Pod → Exec S Deployment
  unfolding get_replica_set_by_pod get_deployment_by_replica_set
  get_deployment_by_pod pod = do rs ← get_replica_set_by_pod pod; get_deployment_by_replica_set rs

  -- `getChangeWorkloadByDeployment`
  unfoldable pub get_change_workload_by_deployment : Deployment → Exec S ChangeWorkload
  unfolding get_change_workload_name_by_deployment
  get_change_workload_by_deployment d = ask (
      api.get_workload
        (record { namespace = d.namespace; name = get_change_workload_name_by_deployment d }))

  -- The part of `podReconcile` after the pod was read.
  unfoldable pub workload_of_pod : Pod → Exec S (Option ChangeWorkload)
  unfolding get_deployment_by_pod get_change_workload_by_deployment is_finished
  workload_of_pod pod =
      if not (is_finished pod)
      then pure none
      else do d ← get_deployment_by_pod pod; w ← get_change_workload_by_deployment d; pure (some w)

  -- `podReconcile`
  unfoldable pub pod_reconcile : NamespacedName → Exec S (Option ChangeWorkload)
  unfolding workload_of_pod ignore_not_found
  pod_reconcile key = do
    reply ← attempt (ask (api.get_pod key))
    elim reply [ failed e ↦ ignore_not_found e none | done pod ↦ workload_of_pod pod ]

  -- The part of `changePodReconcile` after the change pod was read.
  unfoldable pub workload_of_change_pod : ChangePod → Exec S (Option ChangeWorkload)
  workload_of_change_pod c = do
    w ←
        ask
          (api.get_workload (record { namespace = c.namespace; name = c.spec.change_workload_id }))
    pure (some w)

  -- `changePodReconcile`
  unfoldable pub change_pod_reconcile : NamespacedName → Exec S (Option ChangeWorkload)
  unfolding workload_of_change_pod ignore_not_found
  change_pod_reconcile key = do
    reply ← attempt (ask (api.get_change_pod key))
    elim reply [ failed e ↦ ignore_not_found e none | done c ↦ workload_of_change_pod c ]

  -- The first switch of `Reconcile`: the workload that the request is about.
  unfoldable pub find_workload : NamespacedName → Exec S (Option ChangeWorkload)
  unfolding pod_reconcile change_pod_reconcile get_resource_type_from_namespace_name
      is_pod_resource_type is_change_pod_resource_type get_pod_request_from_pod_namespace_name
  find_workload key =
      let kind = get_resource_type_from_namespace_name key in
      if is_pod_resource_type kind
      then pod_reconcile (get_pod_request_from_pod_namespace_name key)
      else if is_change_pod_resource_type kind
      then change_pod_reconcile (get_pod_request_from_pod_namespace_name key)
      else do w ← ask (api.get_workload key); pure (some w)

  -- `Reconcile`
  unfoldable pub reconcile : NamespacedName → Exec S (Unit {0})
  unfolding find_workload dispatch ignore_not_found
  reconcile key = do
    reply ← attempt (find_workload key)
    elim reply [
      | failed e ↦ ignore_not_found e tt
      | done none ↦ pure tt
      | done (some w) ↦ dispatch api w.status.status w
    ]
