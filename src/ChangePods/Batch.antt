-- ===== src/ChangePods/Batch.antt =====
-- How the change pod controller chooses the pods of a batch and marks them.
use Prim.Native.String.{◌++◌}
use altershield_operator.Base.{
  String, false, not, List, [], ◌∷◌, Option, none, some, if◌then◌else◌, ◌==◌, length, take, leb,
  is_nil,
}
use altershield_operator.Base.Int.{ℤ, pos, negsuc, ltb_ℤ}
use altershield_operator.Base.Labels.{label, set_label}
use altershield_operator.Calls.{patch_pod, delete_change_pod}
use altershield_operator.Exec.{Exec, pure, raise, or_crash, ask, write, ◌>>=◌, ◌>>◌}
use altershield_operator.Client.{Client}
use altershield_operator.Predicates.{filter_pod_without_finished_or_defensed_label}
use altershield_operator.Types.{ChangePod, Pod, PodSummary}
use altershield_operator.Utils.Constants.{
  defense_status_label, defense_status_label_processed, admission_webhook_version_label,
}

-- `getPreparingPodSummary`
unfoldable pub get_preparing_pod_summary : String → Pod → PodSummary
get_preparing_pod_summary deployment_name pod = record {
  app = deployment_name;
  hostname = pod.name;
  workspace = "default";
  pod = pod.name;
  ip = pod.pod_ip;
  namespace = pod.namespace;
  verdict = "";
  message = "";
}

-- `xs[:n]`, which panics for a negative bound or one past the end.
unfoldable pub slice_to {ℓ} : {A : Type ℓ} → List A → ℤ → Option (List A)
slice_to xs (pos n) = if leb n (length xs) then some (take n xs) else none
slice_to xs (negsuc n) = none

-- The cut of the candidates at the threshold.
unfoldable pub cut_at_threshold : List Pod → ℤ → Option (List Pod)
unfolding slice_to
cut_at_threshold pods threshold =
    if ltb_ℤ threshold (pos (length pods)) then slice_to pods threshold else some pods

module _ {S : Type 0} (api : Client S) where
  -- `defenseProcessedPod`
  unfoldable pub defense_processed_pod : Pod → Exec S (Unit {0})
  unfolding label set_label
  defense_processed_pod pod =
      if label defense_status_label pod.labels == defense_status_label_processed
      then pure tt
      else do
        labels ← or_crash (set_label defense_status_label defense_status_label_processed pod.labels)
        let marked = record pod { labels = labels }
        stored ← write (patch_pod pod marked) (api.patch_pod pod marked)
        pure tt

  -- `markDefensedPods`
  unfoldable pub mark_defensed_pods : List PodSummary → Exec S (Unit {0})
  unfolding defense_processed_pod
  mark_defensed_pods [] = pure tt
  mark_defensed_pods (info ∷ infos) = do
    pod ← ask (api.get_pod (record { namespace = info.namespace; name = info.pod }))
    defense_processed_pod pod
    mark_defensed_pods infos

  -- The loop of `executeInitChangePodHandle` that marks the chosen pods.
  unfoldable pub defense_processed_pods : List Pod → Exec S (Unit {0})
  unfolding defense_processed_pod
  defense_processed_pods [] = pure tt
  defense_processed_pods (pod ∷ pods) = do defense_processed_pod pod; defense_processed_pods pods

  -- `getAllPodsByChangePod`
  unfoldable pub get_all_pods_by_change_pod : ChangePod → Exec S (List Pod)
  unfolding label
  get_all_pods_by_change_pod c = ask (
      api.list_pods c.namespace
        ((admission_webhook_version_label, label admission_webhook_version_label c.labels) ∷ []))

  -- `getFinishedPodsWithoutDefenseByChangePodAndDeleteIfNotExist`
  unfoldable pub get_finished_pods_without_defense : ChangePod → Exec S (List Pod)
  unfolding get_all_pods_by_change_pod filter_pod_without_finished_or_defensed_label
  get_finished_pods_without_defense c = do
    array ← get_all_pods_by_change_pod c
    let pods = filter_pod_without_finished_or_defensed_label array
    if not (is_nil pods) then pure pods else do
      write (delete_change_pod c) (api.delete_change_pod c)
      raise (record {
        not_found = false;
        message = ("no pod found by changePod " ++ c.name) ++ ", will delete changePod";
      })
