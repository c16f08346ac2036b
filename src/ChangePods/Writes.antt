-- ===== src/ChangePods/Writes.antt =====
-- What each action of the change pod controller issues, for any property of writes that the single
-- writes have.
use altershield_operator.Base.{
  ◌≡◌, refl, Bool, true, false, List, [], ◌∷◌, not, is_nil, ◌==◌, some, map,
}
use altershield_operator.Base.Labels.{Labels, label, set_label, get_label?, get_label?-set_label}
use altershield_operator.Calls.{
  Call, patch_pod, update_change_pod, update_change_pod_status, delete_change_pod,
}
use altershield_operator.Exec.{Reply, done}
use altershield_operator.Exec.Issues.{
  Issues, Returns, Issues-bind, Issues-bind_knowing, Issues-if, Issues-pure, Issues-write,
  Issues-ask, Returns-bind, Returns-bind_knowing, Returns-pure, Returns-raise, Returns-or_crash,
  Returns-ask, Returns-split, Issues-or_crash, Issues-raise, issues_rules,
}
use altershield_operator.Client.{Client}
use altershield_operator.Predicates.{filter_pod_without_finished_or_defensed_label}
use altershield_operator.Types.{ChangePod, ChangeWorkload, Pod, PodSummary}
use altershield_operator.Types.State.{ChangePodState, pre_wait, pre_submitted, post_submitted}
use altershield_operator.ChangePods.Status.{
  set_change_pod_status, set_change_pod_pre_submitted_status, set_change_pod_post_submitted_status,
  set_change_pod_pre_wait_status, update_status, get_now_time,
}
use altershield_operator.ChangePods.Batch.{
  defense_processed_pod, mark_defensed_pods, defense_processed_pods,
  get_finished_pods_without_defense, get_all_pods_by_change_pod, get_preparing_pod_summary,
  cut_at_threshold,
}
use altershield_operator.ChangePods.Reconcile.{fill_change_pod}
use altershield_operator.Utils.Constants.{
  defense_status_label, defense_status_label_processed, deployment_name_label,
  admission_webhook_version_label,
}

label_written :
    (l : Labels) {m : Labels}
    → set_label defense_status_label defense_status_label_processed l ≡ some m
    → get_label? defense_status_label m ≡ some defense_status_label_processed
label_written l h =
    get_label?-set_label defense_status_label defense_status_label_processed defense_status_label l
      h

some_pods : (b : Bool) → not b ≡ true → b ≡ false
some_pods true h = absurd cc
some_pods false h = refl

-- The change pod with the summaries of the chosen pods.
abbrev pub filled : ChangePod → List Pod → ChangePod
filled c pods = record c {
  spec = record c.spec {
    pod_infos = map (get_preparing_pod_summary (label deployment_name_label c.labels)) pods;
  };
}

module _ {S : Type 0} (api : Client S) where
  pub Returns-set_change_pod_status :
      (st : ChangePodState) (c : ChangePod)
      → Returns (λ d. d.status.status ≡ st) (set_change_pod_status api st c)
  unfolding set_change_pod_status
  Returns-set_change_pod_status st c =
      Returns-bind _ _ (λ time. Returns-bind _ _ (λ unix. Returns-pure _ refl))

  pub Issues-set_change_pod_status :
      {Q : Call → Type 0} (st : ChangePodState) (c : ChangePod)
      → Issues Q (set_change_pod_status api st c)
  unfolding set_change_pod_status get_now_time
  Issues-set_change_pod_status st c = search issues_rules

  pub Issues-update_status :
      {Q : Call → Type 0} (c : ChangePod)
      → Q (update_change_pod_status c)
      → Issues Q (update_status api c)
  unfolding update_status
  Issues-update_status c q = Issues-bind _ _ (Issues-write _ _ q) (λ _. Issues-pure tt)

  pub Returns-pre_submitted :
      (c : ChangePod)
      → Returns (λ d. d.status.status ≡ pre_submitted) (set_change_pod_pre_submitted_status api c)
  unfolding set_change_pod_pre_submitted_status
  Returns-pre_submitted c =
      Returns-bind_knowing _ _ (Returns-set_change_pod_status pre_submitted c)
        (λ d p. Returns-bind _ _ (λ time. Returns-bind _ _ (λ unix. Returns-pure _ p)))

  pub Returns-post_submitted :
      (c : ChangePod)
      → Returns (λ d. d.status.status ≡ post_submitted) (set_change_pod_post_submitted_status api c)
  unfolding set_change_pod_post_submitted_status
  Returns-post_submitted c =
      Returns-bind_knowing _ _ (Returns-set_change_pod_status post_submitted c)
        (λ d p. Returns-bind _ _ (λ time. Returns-bind _ _ (λ unix. Returns-pure _ p)))

  pub Issues-submitted :
      {Q : Call → Type 0} (c : ChangePod)
      → Issues Q (set_change_pod_pre_submitted_status api c)
        × Issues Q (set_change_pod_post_submitted_status api c)
  unfolding set_change_pod_pre_submitted_status set_change_pod_post_submitted_status
  Issues-submitted c = (search issues_rules, search issues_rules)

  -- The server's answer, in a state, to the list of the pods of a change pod's version.
  abbrev pub pods_of : ChangePod → S → Reply (List Pod)
  pods_of c s =
      (api.list_pods c.namespace
        ((admission_webhook_version_label, label admission_webhook_version_label c.labels) ∷ [])
        s).0

  -- The pods that it returns are the preparing ones of a list that the server gave, and there are some.
  Returns-get_finished_pods :
      (c : ChangePod)
      → Returns
          (λ found.
            (s : S) × (array : List Pod) × (pods_of c s ≡ done array)
            × (found ≡ filter_pod_without_finished_or_defensed_label array)
            × (is_nil found ≡ false))
          (get_finished_pods_without_defense api c)
  unfolding get_finished_pods_without_defense get_all_pods_by_change_pod
  Returns-get_finished_pods c =
      Returns-bind_knowing _ _
        (Returns-ask {R = λ array. (s : S) × (pods_of c s ≡ done array)} _ (λ s a e. (s, e)))
        (λ array (s, e).
          Returns-split (not (is_nil (filter_pod_without_finished_or_defensed_label array))) _ _
            (λ t. Returns-pure _ (s, array, e, refl, some_pods _ t))
            (λ _. Returns-bind _ _ (λ _. Returns-raise _)))

module _ {S : Type 0} (api : Client S) {Q : Call → Type 0}
    (marks : (pod : Pod) (l : Labels)
      → get_label? defense_status_label l ≡ some defense_status_label_processed
      → Q (patch_pod pod (record pod { labels = l }))) where
  Issues-defense_processed_pod : (pod : Pod) → Issues Q (defense_processed_pod api pod)
  unfolding defense_processed_pod
  Issues-defense_processed_pod pod =
      Issues-if (label defense_status_label pod.labels == defense_status_label_processed) _ _
        (λ _. Issues-pure tt)
        (λ _.
          Issues-bind_knowing _ _ (Issues-or_crash _)
            (Returns-or_crash _ (λ l e. label_written pod.labels e))
            (λ l e. Issues-bind _ _ (Issues-write _ _ (marks pod l e)) (λ _. Issues-pure tt)))

  pub Issues-mark_defensed_pods :
      (infos : List PodSummary) → Issues Q (mark_defensed_pods api infos)
  unfolding mark_defensed_pods
  Issues-mark_defensed_pods [] = Issues-pure tt
  Issues-mark_defensed_pods (info ∷ infos) = Issues-bind _ _ (Issues-ask _) (λ pod.
      Issues-bind _ _ (Issues-defense_processed_pod pod) (λ _. Issues-mark_defensed_pods infos))

  pub Issues-defense_processed_pods : (pods : List Pod) → Issues Q (defense_processed_pods api pods)
  unfolding defense_processed_pods
  Issues-defense_processed_pods [] = Issues-pure tt
  Issues-defense_processed_pods (pod ∷ pods) =
      Issues-bind _ _ (Issues-defense_processed_pod pod) (λ _. Issues-defense_processed_pods pods)

  Issues-get_finished_pods :
      (c : ChangePod) → Q (delete_change_pod c) → Issues Q (get_finished_pods_without_defense api c)
  unfolding get_finished_pods_without_defense get_all_pods_by_change_pod
  Issues-get_finished_pods c q = Issues-bind _ _ (Issues-ask _) (λ array.
      Issues-if (not (is_nil (filter_pod_without_finished_or_defensed_label array))) _ _
        (λ _. Issues-pure _)
        (λ _. Issues-bind _ _ (Issues-write (delete_change_pod c) _ q) (λ _. Issues-raise _)))

  pub Issues-fill_change_pod :
      (c : ChangePod) (workload : ChangeWorkload)
      → Q (delete_change_pod c)
      → ((s : S) (array pods : List Pod)
          → pods_of api c s ≡ done array
          → is_nil (filter_pod_without_finished_or_defensed_label array) ≡ false
          → cut_at_threshold
              (filter_pod_without_finished_or_defensed_label array)
              workload.spec.count_threshold
            ≡ some pods
          → Q (update_change_pod (filled c pods)))
      → ((d : ChangePod) → d.status.status ≡ pre_wait → Q (update_change_pod_status d))
      → Issues Q (fill_change_pod api c workload)
  unfolding fill_change_pod set_change_pod_pre_wait_status
  Issues-fill_change_pod c workload deletes fills readies =
      Issues-bind_knowing _ _ (Issues-get_finished_pods c deletes) (Returns-get_finished_pods api c)
        (λ found (s, array, a, e, t).
          Issues-bind_knowing _ _ (Issues-or_crash _) (Returns-or_crash _ (λ pods cut. cut))
            (λ pods cut.
              Issues-bind _ _ (Issues-write _ _ (fills s array pods a (rw (← e) t) (rw (← e) cut)))
                (λ stored. Issues-bind _ _ (Issues-defense_processed_pods pods) (λ _.
                  Issues-bind_knowing _ _ (Issues-set_change_pod_status api pre_wait stored)
                    (Returns-set_change_pod_status api pre_wait stored)
                    (λ d p. Issues-update_status api d (readies d p))))))
