-- ===== src/Deployments.antt =====
-- controllers/deployment_controller.go and controllers/resource/changeworkload_factory.go: the
-- controller that makes a change workload for each version of a deployment.
pub mod Admission
pub mod Protection
pub mod Threshold
pub mod Idempotence
use altershield_operator.Base.{Bool, ◌&&◌, not, [], ◌∷◌, if◌then◌else◌}
use altershield_operator.Base.Int.{ℤ, pos}
use altershield_operator.Base.Labels.{Labels, made, label, set_label, delete_label}
use altershield_operator.Calls.{create_workload, patch_deployment}
use altershield_operator.Exec.{
  done, failed, Exec, pure, raise, sample, ask, write, or_crash, attempt, ◌>>=◌, ◌>>◌,
  ignore_not_found,
}
use altershield_operator.Client.{Client}
use altershield_operator.Predicates.{is_defensed, is_admission_webhook}
use altershield_operator.Types.{ChangeWorkload, Deployment, NamespacedName}
use altershield_operator.Types.State.{init}
use altershield_operator.ChangePods.Status.{get_now_time}
use altershield_operator.Utils.Percent.{percent}
use altershield_operator.Utils.Constants.{
  admission_webhook_version_label, deployment_name_label, defense_status_label,
  defense_status_label_processed, ignored_suspend_label, change_workload_wait_time_threshold,
}
use altershield_operator.Workloads.Reconcile.{
  get_change_workload_name_by_deployment, get_change_workload_by_deployment,
}

-- `handleEvent`
unfoldable pub handle_event : Labels → Bool
unfolding is_admission_webhook is_defensed
handle_event labels = is_admission_webhook labels && not (is_defensed labels)

module _ {S : Type 0} (api : Client S) where
  -- The threshold that `NewInstance` chooses: a missing replica count panics.
  unfoldable pub count_threshold_of : Deployment → Exec S ℤ
  unfolding percent
  count_threshold_of d = do
    batch ← sample api.is_batch
    if batch
        then (do
          replicas ← or_crash d.spec_replicas
          count ← sample api.batch_count
          pure (percent replicas count))
        else pure (pos 1)

  -- `NativeChangeWorkloadFactory.NewInstance`
  unfoldable pub new_change_workload : Deployment → Exec S ChangeWorkload
  unfolding count_threshold_of get_now_time label get_change_workload_name_by_deployment
  new_change_workload d = do
    threshold ← count_threshold_of d
    time ← get_now_time api
    unix ← sample api.now
    pure (record {
      namespace = d.namespace;
      name = get_change_workload_name_by_deployment d;
      labels = made (
          (deployment_name_label, d.name)
          ∷ (admission_webhook_version_label, label admission_webhook_version_label d.labels)
          ∷ []);
      owner_references = [];
      spec = record {
        change_workload_id = get_change_workload_name_by_deployment d;
        service_name = d.name;
        reversion = label admission_webhook_version_label d.labels;
        count_threshold = threshold;
        wait_time_threshold = change_workload_wait_time_threshold;
        create_time = time;
        create_time_unix = unix;
        app_name = d.name;
      };
      status = record {
        defense_preparing_pods = [];
        defense_checking_pods = [];
        defense_check_pass_pods = [];
        defense_check_fail_pods = [];
        status = init;
        entry_time = "";
        entry_time_unix = pos 0;
        update_time = "";
        update_time_unix = pos 0;
      };
    })

  -- `createNewChangeWorkload`
  unfoldable pub create_new_change_workload : Deployment → Exec S ChangeWorkload
  unfolding new_change_workload
  create_new_change_workload d = do
    fresh ← new_change_workload d
    let owned = api.own_workload d fresh
    write (create_workload owned) (api.create_workload owned)

  -- `getOrCreateChangeWorkload`
  unfoldable pub get_or_create_change_workload : Deployment → Exec S ChangeWorkload
  unfolding create_new_change_workload get_change_workload_by_deployment
  get_or_create_change_workload d = do
    reply ← attempt (get_change_workload_by_deployment api d)
    elim reply [
      | done w ↦ pure w
      | failed e ↦ if e.not_found then create_new_change_workload d else raise e
    ]

  -- `defenseProcessedDeployment`
  unfoldable pub defense_processed_deployment : Deployment → Exec S (Unit {0})
  unfolding set_label delete_label
  defense_processed_deployment d = do
    l ← or_crash (set_label defense_status_label defense_status_label_processed d.labels)
    let marked = record d { labels = delete_label ignored_suspend_label l }
    stored ← write (patch_deployment d marked) (api.patch_deployment d marked)
    pure tt

  -- `Reconcile`, from the deployment that was read.
  unfoldable pub with_deployment : Deployment → Exec S (Unit {0})
  unfolding get_or_create_change_workload defense_processed_deployment is_defensed
  with_deployment d =
      if is_defensed d.labels
      then pure tt
      else do w ← get_or_create_change_workload d; defense_processed_deployment d

  -- `Reconcile`
  unfoldable pub reconcile : NamespacedName → Exec S (Unit {0})
  unfolding with_deployment ignore_not_found
  reconcile key = do
    reply ← attempt (ask (api.get_deployment key))
    elim reply [ failed e ↦ ignore_not_found e tt | done d ↦ with_deployment d ]
