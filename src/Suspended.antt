-- ===== src/Suspended.antt =====
-- controllers/callback/deployment_handle.go: the query for the suspended deployments of a namespace.
pub mod Answers
use altershield_operator.Base.{
  String, Bool, true, false, List, [], ◌∷◌, Option, none, some, if◌then◌else◌, ◌==◌,
}
use altershield_operator.Base.Labels.{label}
use altershield_operator.Callback.{json}
use altershield_operator.Exec.{Reply, done, failed, Exec, pure, crash, ask, attempt, ◌>>=◌, ◌>>◌}
use altershield_operator.Client.{Client}
use altershield_operator.Types.{ReplicaSet, Deployment, ChangeWorkload, OwnerReference}
use altershield_operator.Types.State.{is_success}
use altershield_operator.Utils.Constants.{
  suspend_label, admission_webhook_version_label, deployment_name_label,
}
use altershield_operator.Workloads.Query.{empty_replica_set}

pub record SuspendDeployment : Type 0 where
  pub deployment_name : String
  pub namespace : String
  pub now_replica_set : ReplicaSet
  pub has_success_version : Bool
  pub success_replica_set : ReplicaSet
  pub success_version : String

module _ {S : Type 0} (api : Client S) where
  -- The test of one replica set: the first owner is read without a check that there is one.
  unfoldable pub owned_by : String → List OwnerReference → Exec S Bool
  owned_by name [] = crash
  owned_by name (r ∷ rs) = pure (r.name == name)

  -- The loop of `getReplicaSet`.
  unfoldable pub first_owned : String → List ReplicaSet → Exec S ReplicaSet
  unfolding owned_by
  first_owned name [] = pure empty_replica_set
  first_owned name (rs ∷ rest) = do
    owned ← owned_by name rs.owner_references
    if owned then pure rs else first_owned name rest

  -- `getReplicaSet`
  unfoldable pub get_owned_replica_set : String → String → String → Exec S ReplicaSet
  unfolding first_owned
  get_owned_replica_set deployment_name namespace version = do
    items ← ask (api.list_replica_sets namespace ((admission_webhook_version_label, version) ∷ []))
    first_owned deployment_name items

  -- The loop over the workloads: the first one that succeeded.
  unfoldable pub first_success : List ChangeWorkload → Option ChangeWorkload
  first_success [] = none
  first_success (w ∷ ws) =
      let later = first_success ws in if is_success w.status.status then some w else later

  -- What it writes into the result.
  unfoldable pub with_success :
      Deployment → SuspendDeployment → Option ChangeWorkload → Exec S SuspendDeployment
  unfolding get_owned_replica_set label
  with_success d found none = pure found
  with_success d found (some w) = do
    let version = label admission_webhook_version_label w.labels
    old ← get_owned_replica_set d.name d.namespace version
    pure (record found {
      has_success_version = true;
      success_version = version;
      success_replica_set = old;
    })

  -- `getSuspendDeployment`
  unfoldable pub get_suspend_deployment : Deployment → Exec S SuspendDeployment
  unfolding get_owned_replica_set first_success with_success label
  get_suspend_deployment d = do
    now ← get_owned_replica_set d.name d.namespace (label admission_webhook_version_label d.labels)
    workloads ← ask (api.list_workloads d.namespace ((deployment_name_label, d.name) ∷ []))
    with_success d
        (record {
          deployment_name = d.name;
          namespace = d.namespace;
          now_replica_set = now;
          has_success_version = false;
          success_replica_set = empty_replica_set;
          success_version = "";
        })
        (first_success workloads)

  -- The loop over the deployments: the first error ends it.
  unfoldable pub get_suspend_deployments : List Deployment → Exec S (List SuspendDeployment)
  unfolding get_suspend_deployment
  get_suspend_deployments [] = pure []
  get_suspend_deployments (d ∷ ds) = do
    found ← get_suspend_deployment d
    rest ← get_suspend_deployments ds
    pure (found ∷ rest)

  -- The answer with what was found; the result is the `deployments` of its body.
  unfoldable pub answer_with : Reply (List SuspendDeployment) → Exec S (List SuspendDeployment)
  unfolding json
  answer_with (failed e) = do json api 500; pure []
  answer_with (done found) = do json api 200; pure found

  -- `GetSuspendDeployment`
  unfoldable pub get_suspend_deployment_handler : String → Exec S (List SuspendDeployment)
  unfolding get_suspend_deployments answer_with
  get_suspend_deployment_handler namespace = do
    reply ←
        attempt
          (do ds ← ask (api.list_suspended namespace suspend_label); get_suspend_deployments ds)
    answer_with reply
