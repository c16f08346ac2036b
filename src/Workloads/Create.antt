-- ===== src/Workloads/Create.antt =====
-- How the change workload controller begins a batch: the factory of change pods
-- (controllers/resource/changepod_factory.go) and `ensureInitChangePodCreatedIfNecessary`.
use Prim.Native.String.{◌++◌}
use altershield_operator.Base.{
  ℕ, ◌+◌, Bool, false, ◌||◌, List, [], ◌∷◌, Option, none, some, if◌then◌else◌, length,
}
use altershield_operator.Base.Int.{pos}
use altershield_operator.Base.Labels.{made, label}
use altershield_operator.Calls.{create_change_pod, patch_workload_status}
use altershield_operator.Exec.{done, failed, Exec, pure, sample, write, attempt, ◌>>=◌}
use altershield_operator.Client.{Client}
use altershield_operator.Types.{ChangePod, ChangeWorkload}
use altershield_operator.Types.State.{execute_init, is_execute_init}
use altershield_operator.ChangePods.Status.{get_now_time}
use altershield_operator.Utils.Constants.{
  meta_mark, deployment_name_label, admission_webhook_version_label,
}
use altershield_operator.Workloads.Query.{
  get_all_change_pods_by_workload, is_defense_preparing_pods_threshold_reached,
  is_defense_preparing_pods_exist,
}

-- The loop of `isExistInitStatusChangePod`.
unfoldable pub any_init : List ChangePod → Bool
any_init [] = false
any_init (c ∷ cs) = is_execute_init c.status.status || any_init cs

module _ {S : Type 0} (api : Client S) where
  -- `NativeChangePodFactory.NewInstance`
  unfoldable pub new_change_pod : ChangeWorkload → ℕ → Exec S ChangePod
  unfolding get_now_time label
  new_change_pod w change_pod_num = do
    time ← get_now_time api
    unix ← sample api.now
    pure (record {
      namespace = w.namespace;
      name = (w.name ++ meta_mark) ++ api.format_int (pos (change_pod_num + 1));
      labels = made (
          (deployment_name_label, label deployment_name_label w.labels)
          ∷ (admission_webhook_version_label, label admission_webhook_version_label w.labels)
          ∷ []);
      spec = record {
        pod_infos = [];
        create_time = time;
        create_time_unix = unix;
        change_workload_id = w.name;
      };
      status = record {
        status = execute_init;
        update_time = "";
        update_time_unix = pos 0;
        pod_results = [];
        message = execute_init;
        change_pod_id = "";
        pre_submit_time = "";
        pre_submit_time_unix = pos 0;
        post_submit_time = "";
        post_submit_time_unix = pos 0;
        pre_timeout_threshold = pos 0;
        post_timeout_threshold = pos 0;
      };
    })

  -- `createNewChangePod`
  unfoldable pub create_new_change_pod : ChangeWorkload → ℕ → Exec S ChangePod
  unfolding new_change_pod
  create_new_change_pod w change_pod_num = do
    fresh ← new_change_pod w change_pod_num
    let owned = api.own_change_pod w fresh
    write (create_change_pod owned) (api.create_change_pod owned)

  -- `isExistInitStatusChangePod`
  unfoldable pub is_exist_init_status_change_pod : ChangeWorkload → Exec S (Bool × ℕ)
  unfolding get_all_change_pods_by_workload any_init
  is_exist_init_status_change_pod w = do
    change_pods ← get_all_change_pods_by_workload api w
    pure (any_init change_pods, length change_pods)

  -- `patchWorkloadEntryTime`: an error is only logged, and the workload in memory has the new times.
  unfoldable pub patch_workload_entry_time : ChangeWorkload → Exec S ChangeWorkload
  unfolding get_now_time
  patch_workload_entry_time w = do
    time ← get_now_time api
    unix ← sample api.now
    let entered = record w {
      status = record w.status { entry_time = time; entry_time_unix = unix };
    }
    reply ← attempt (write (patch_workload_status w entered) (api.patch_workload_status w entered))
    elim reply [ done stored ↦ pure stored | failed e ↦ pure entered ]

  -- The choice of `ensureInitChangePodCreatedIfNecessary`.
  unfoldable pub is_necessary : ChangeWorkload → Bool → Exec S Bool
  unfolding is_defense_preparing_pods_threshold_reached is_defense_preparing_pods_exist
  is_necessary w reached_threshold =
      if reached_threshold
      then is_defense_preparing_pods_threshold_reached api w
      else is_defense_preparing_pods_exist api w

  -- `ensureInitChangePodCreatedIfNecessary`: the new change pod, if there is one, and the workload as
  -- the call leaves it in memory.
  unfoldable pub ensure_init_change_pod :
      ChangeWorkload → Bool → Exec S (Option ChangePod × ChangeWorkload)
  unfolding is_exist_init_status_change_pod is_necessary create_new_change_pod
      patch_workload_entry_time
  ensure_init_change_pod w reached_threshold = do
    (exist, change_pod_num) ← is_exist_init_status_change_pod w
    if exist then pure (none, w) else do
      necessary ← is_necessary w reached_threshold
      if necessary
          then (do
            created ← create_new_change_pod w change_pod_num
            patched ← patch_workload_entry_time w
            pure (some created, patched))
          else pure (none, w)
