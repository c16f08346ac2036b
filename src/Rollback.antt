-- ===== src/Rollback.antt =====
-- runnable/run_deployment_status_vaild.go: one round of the loop that looks every second for pods that
-- do not run and takes their deployments back to the template of a replica set that does.
pub mod Effects
pub mod Choice
pub mod Tours
pub mod Reads
pub mod Exact
use altershield_operator.Base.{
  String, Bool, true, false, ◌&&◌, not, List, [], ◌∷◌, Option, none, some, if◌then◌else◌, ◌==◌, map,
  length, ltb,
}
use altershield_operator.Base.Int.{ℤ, pos, eqb_ℤ}
use altershield_operator.Base.Labels.{insert, has_label, delete_label, entries_of}
use altershield_operator.Calls.{update_deployment}
use altershield_operator.Exec.{Reply, done, failed, Exec, pure, sample, ask, write, attempt, ◌>>=◌}
use altershield_operator.Client.{Client}
use altershield_operator.Types.{Pod, ReplicaSet, Deployment, OwnerReference}
use altershield_operator.Timeouts.{listed}
use altershield_operator.Utils.Constants.{
  admission_webhook_version_label, admission_webhook_namespace_label, replica_set_kind,
  deployment_kind,
}
use altershield_operator.Utils.Pods.{MapOf}
use altershield_operator.Workloads.Query.{first_owner, empty_deployment, empty_replica_set}

abbrev pub pod_status_running : String
pod_status_running = "Running"

abbrev pub pod_status_terminating : String
pod_status_terminating = "Terminating"

-- `utils.Enabled`
abbrev pub enabled : String
enabled = "enabled"

abbrev pub pod_template_hash : String
pod_template_hash = "pod-template-hash"

-- The inner loop of `getNonRunningPods`: the pod under the name of each owner that is a replica set.
unfoldable pub put_owners : Pod → MapOf Pod → List OwnerReference → MapOf Pod
unfolding insert
put_owners pod m [] = m
put_owners pod m (r ∷ rs) =
    put_owners pod (if r.kind == replica_set_kind then insert r.name pod m else m) rs

-- `checkDeploymentStatus`
unfoldable pub check_deployment_status : Deployment → Bool
check_deployment_status d =
    eqb_ℤ d.replicas d.ready_replicas
    && eqb_ℤ d.ready_replicas d.available_replicas
    && eqb_ℤ d.available_replicas d.updated_replicas

-- The test of `getNormalReplicaSetByDeployment`.
unfoldable pub is_normal : String → ReplicaSet → Bool
is_normal name rs =
    not (rs.name == name)
    && not (eqb_ℤ rs.replicas (pos 0))
    && eqb_ℤ rs.replicas rs.ready_replicas
    && eqb_ℤ rs.ready_replicas rs.available_replicas

-- Its loop: the first one that passes, or an empty one.
unfoldable pub first_normal : String → List ReplicaSet → ReplicaSet
unfolding is_normal
first_normal name [] = empty_replica_set
first_normal name (rs ∷ rest) =
    let later = first_normal name rest in if is_normal name rs then rs else later

-- `ownsDeployment.Spec.Template = normalReplicaSet.Spec.Template`, with the hash label deleted.
unfoldable pub rolled_back : Deployment → ReplicaSet → Deployment
unfolding delete_label
rolled_back d rs = record d {
  template_labels = delete_label pod_template_hash rs.template_labels;
  template_spec = rs.template_spec;
}

abbrev pub or_else : {A : Type 0} → A → Reply A → A
or_else a (done b) = b
or_else a (failed e) = a

module _ {S : Type 0} (api : Client S) where
  -- The last test of `getNonRunningPods`: a pod without a start time is not old.
  unfoldable pub is_old : Option ℤ → Exec S Bool
  is_old none = pure false
  is_old (some start) = sample (api.is_over_timeout start)

  -- The condition on one pod.
  unfoldable pub is_stuck : Pod → Exec S Bool
  unfolding is_old has_label
  is_stuck pod =
      if not (has_label admission_webhook_version_label pod.labels)
      then pure false
      else if not (pod.phase == pod_status_running) && not (pod.phase == pod_status_terminating)
      then is_old pod.start_time
      else pure false

  -- The loop over the pods.
  unfoldable pub put_pods : MapOf Pod → List Pod → Exec S (MapOf Pod)
  unfolding is_stuck put_owners
  put_pods m [] = pure m
  put_pods m (pod ∷ pods) = do
    stuck ← is_stuck pod
    put_pods (if stuck then put_owners pod m pod.owner_references else m) pods

  -- `getNonRunningPods`
  unfoldable pub get_non_running_pods : String → Exec S (List Pod)
  unfolding put_pods
  get_non_running_pods ns = do
    reply ← attempt (ask (api.list_pods ns []))
    m ← put_pods [] (listed reply)
    sample (api.range_pods (map (λ e. e.1) m))

  -- `getAllWebhookNamespace`
  unfoldable pub get_all_webhook_namespace : Exec S (List String)
  get_all_webhook_namespace = do
    reply ← attempt (ask (api.list_namespaces ((admission_webhook_namespace_label, enabled) ∷ [])))
    pure (listed reply)

  -- `getPodOwnsReplicaSet`: empty without an owner, or when it cannot be read.
  unfoldable pub replica_set_named : String → Option String → Exec S ReplicaSet
  replica_set_named ns none = pure empty_replica_set
  replica_set_named ns (some name) = do
    reply ← attempt (ask (api.get_replica_set (record { namespace = ns; name = name })))
    pure (or_else empty_replica_set reply)

  unfoldable pub get_pod_owns_replica_set : Pod → Exec S ReplicaSet
  unfolding replica_set_named first_owner
  get_pod_owns_replica_set pod =
      replica_set_named pod.namespace (first_owner replica_set_kind pod.owner_references)

  -- `getReplicaSetOwnsDeployment`, in the same way
  unfoldable pub deployment_named : String → Option String → Exec S Deployment
  deployment_named ns none = pure empty_deployment
  deployment_named ns (some name) = do
    reply ← attempt (ask (api.get_deployment (record { namespace = ns; name = name })))
    pure (or_else empty_deployment reply)

  unfoldable pub get_replica_set_owns_deployment : ReplicaSet → Exec S Deployment
  unfolding deployment_named first_owner
  get_replica_set_owns_deployment rs =
      deployment_named rs.namespace (first_owner deployment_kind rs.owner_references)

  -- `getNormalReplicaSetByDeployment`
  unfoldable pub get_normal_replica_set : Deployment → ReplicaSet → Exec S ReplicaSet
  unfolding first_normal
  get_normal_replica_set d owns = do
    reply ← attempt (ask (api.list_replica_sets d.namespace (entries_of d.match_labels)))
    pure (
        if ltb 1 (length (listed reply))
        then first_normal owns.name (listed reply)
        else empty_replica_set)

  -- The update of the deployment; its error is only logged.
  unfoldable pub roll_back : Deployment → ReplicaSet → Exec S Bool
  unfolding rolled_back
  roll_back d rs = do
    let changed = rolled_back d rs
    reply ← attempt (write (update_deployment changed) (api.update_deployment changed))
    pure true

  -- What is done with a deployment. The result tells whether the loop goes on: both `return`s end the
  -- goroutine.
  unfoldable pub check_deployment : Deployment → ReplicaSet → Exec S Bool
  unfolding check_deployment_status get_normal_replica_set roll_back
  check_deployment d owns =
      if d.name == "" then pure true else if check_deployment_status d then pure false else do
        rs ← get_normal_replica_set d owns
        if rs.name == "" then pure false else roll_back d rs

  -- What is done with a pod.
  unfoldable pub check_pod : Pod → Exec S Bool
  unfolding get_pod_owns_replica_set get_replica_set_owns_deployment check_deployment
  check_pod pod = do
    owns ← get_pod_owns_replica_set pod
    if owns.name == ""
        then pure true
        else do d ← get_replica_set_owns_deployment owns; check_deployment d owns

  unfoldable pub check_pods : List Pod → Exec S Bool
  unfolding check_pod
  check_pods [] = pure true
  check_pods (pod ∷ pods) = do more ← check_pod pod; if more then check_pods pods else pure false

  unfoldable pub check_namespaces : List String → Exec S Bool
  unfolding get_non_running_pods check_pods
  check_namespaces [] = pure true
  check_namespaces (ns ∷ rest) = do
    pods ← get_non_running_pods ns
    more ← check_pods pods
    if more then check_namespaces rest else pure false

  -- One round of `DeploymentStatusRollBackRun`: whether there is a next one.
  unfoldable pub roll_back_round : Exec S Bool
  unfolding get_all_webhook_namespace check_namespaces
  roll_back_round = do namespaces ← get_all_webhook_namespace; check_namespaces namespaces
