-- ===== src/Lifecycle/Filled.antt =====
-- The first handler of a change pod against a server that keeps it and has pods that wait.
use altershield_operator.Base.{
  String, ◌≡◌, refl, Bool, true, not, ◌&&◌, some, List, [], ◌∷◌, ℕ, suc, is_nil, All, take, keep,
  false, ◌==◌,
}
use altershield_operator.Base.Int.{pos}
use altershield_operator.Base.Labels.{Labels, nil, made, label, set_label, has_label, insert}
use altershield_operator.Client.{Client}
use altershield_operator.Exec.{done, ◌>>=◌, ◌>>◌}
use altershield_operator.Exec.Leads.{
  Leads, Leads-pure, Leads-ask, Leads-write, Leads-if, Leads-or_crash, Leads-bind, Leads-some,
  Leads-known, Leads-weaken,
}
use altershield_operator.ChangePods.Batch.{
  get_finished_pods_without_defense, get_all_pods_by_change_pod, defense_processed_pod,
  defense_processed_pods,
}
use altershield_operator.ChangePods.Batches.{cut_at_threshold_lem, keep-All, take-All, waits}
use altershield_operator.ChangePods.Reconcile.{fill_change_pod}
use altershield_operator.ChangePods.Status.{set_change_pod_pre_wait_status, update_status}
use altershield_operator.ChangePods.Writes.{filled, pods_of}
use altershield_operator.Lifecycle.Server.{IsServing, Has, IsStamped}
use altershield_operator.Lifecycle.Batch.{Leads-set, Leads-update_status}
use altershield_operator.Predicates.{
  is_preparing, is_finished, is_defensed, filter_pod_without_finished_or_defensed_label,
}
use altershield_operator.Types.{ChangePod, ChangeWorkload, Pod}
use altershield_operator.Types.State.{pre_wait}
use altershield_operator.Utils.Constants.{defense_status_label, defense_status_label_processed}

set_label-has_label :
    (j k v : String) (l : Labels) (b : Bool)
    → (has_label j l && b) ≡ true
    → (m : Labels) × (set_label k v l ≡ some m)
unfolding has_label set_label
set_label-has_label j k v nil b e = absurd cc
set_label-has_label j k v (made m) b e = (made (insert k v m), refl)

-- A pod that waits has labels, since it has that of a finished pod.
set_label-preparing :
    (k v : String) (pod : Pod)
    → is_preparing pod ≡ true
    → (m : Labels) × (set_label k v pod.labels ≡ some m)
unfolding is_preparing
set_label-preparing k v pod h = set_label-has_label _ k v pod.labels _ h

-- Every pod of the list waits for a batch.
abbrev pub AreWaiting : List Pod → Type 0
AreWaiting pods = All (λ pod. is_preparing pod ≡ true) pods

waiting : (array : List Pod) → AreWaiting (filter_pod_without_finished_or_defensed_label array)
unfolding filter_pod_without_finished_or_defensed_label
waiting array = keep-All is_preparing array

filter-waits :
    (array : List Pod) → filter_pod_without_finished_or_defensed_label array ≡ keep waits array
unfolding filter_pod_without_finished_or_defensed_label is_preparing is_finished is_defensed
filter-waits array = refl

take-some : (n : ℕ) (pods : List Pod) → is_nil pods ≡ false → is_nil (take (suc n) pods) ≡ false
take-some n [] h = h
take-some n (pod ∷ pods) h = refl

-- The pods that wait in a list of the change pod's version that the server gave; there are some.
abbrev pub AreFound : {S : Type 0} → Client S → ChangePod → List Pod → Type 0
AreFound {S} api c found =
    (s : S) × (array : List Pod) × (pods_of api c s ≡ done array)
    × (found ≡ keep waits array)
    × (is_nil found ≡ false)

-- The first of them, at least one.
abbrev pub AreChosen : {S : Type 0} → Client S → ChangePod → List Pod → Type 0
AreChosen api c pods =
    (found : List Pod) × (n : ℕ) × AreFound api c found
    × (pods ≡ take (suc n) found)
    × (is_nil pods ≡ false)

module _ {S : Type 0} (api : Client S) (id : String) (Is : ChangePod → S → Type 0)
    (serves : IsServing api id Is) where
  Leads-mark :
      (c : ChangePod) (pod : Pod)
      → is_preparing pod ≡ true
      → Leads (Is c) (defense_processed_pod api pod) (λ _ s. Is c s)
  unfolding defense_processed_pod
  Leads-mark c pod h =
      let (l, e) = set_label-preparing defense_status_label defense_status_label_processed pod h in
      Leads-if (label defense_status_label pod.labels == defense_status_label_processed) _ _
        (λ _. Leads-pure tt (λ s p. p))
        (λ _. Leads-bind _ _ (Leads-or_crash {Q = λ m s. Is c s} _ l e (λ s p. p)) (λ m.
          Leads-bind _ _ (Leads-write _ _ (serves.patches_pod c pod _))
            (λ stored. Leads-pure tt (λ s p. p))))

  Leads-marks :
      (c : ChangePod) (pods : List Pod)
      → AreWaiting pods
      → Leads (Is c) (defense_processed_pods api pods) (λ _ s. Is c s)
  unfolding defense_processed_pods
  Leads-marks c [] h = Leads-pure tt (λ s p. p)
  Leads-marks c (pod ∷ pods) h = Leads-bind _ _ (Leads-mark c pod h.0) (λ _. Leads-marks c pods h.1)

  Leads-found :
      (c : ChangePod)
      → c.spec.pod_infos ≡ []
      → Leads
          (Is c)
          (get_finished_pods_without_defense api c)
          (λ found s. (AreFound api c found × AreWaiting found) × Is c s)
  unfolding get_finished_pods_without_defense get_all_pods_by_change_pod
  Leads-found c e =
      Leads-bind
        {Q = λ array s.
          (((t : S) × (pods_of api c t ≡ done array))
            × (is_nil (filter_pod_without_finished_or_defensed_label array) ≡ false))
          × Is c s}
        _ _
        (Leads-ask _ (λ s p.
          let (array, a, (h, is)) = serves.has_pods c _ e s p in (array, a, (((s, a), h), is))))
        (λ array. Leads-some _ (λ ((t, a), h).
          Leads-if (not (is_nil (filter_pod_without_finished_or_defensed_label array))) _ _
            (λ _. Leads-pure _ (λ s p. (((t, array, a, filter-waits array, h), waiting array), p)))
            (λ no. absurd (cc))))

  -- What follows once the pods were written.
  Leads-marked :
      (c : ChangePod) (pods : List Pod)
      → AreChosen api c pods
      → AreWaiting pods
      → Leads
          (Is (filled c pods))
          (do
            defense_processed_pods api pods
            ready ← set_change_pod_pre_wait_status api (filled c pods)
            update_status api ready)
          (λ _ s.
            (chosen : List Pod) × AreChosen api c chosen
            × Has Is (filled c chosen) (IsStamped pre_wait c.status) s)
  unfolding set_change_pod_pre_wait_status
  Leads-marked c pods chosen w = Leads-bind _ _ (Leads-marks (filled c pods) pods w) (λ _.
      Leads-bind _ _ (Leads-set api id Is serves (filled c pods) c.status pre_wait) (λ d.
        Leads-some _ (λ (u, h, k). rw k (
          Leads-weaken _
            (Leads-update_status api id Is serves (filled c pods) u (IsStamped pre_wait c.status) h)
            (λ _ s q. (pods, chosen, q))))))

  pub Leads-fill :
      (c : ChangePod) (workload : ChangeWorkload) (n : ℕ)
      → c.spec.pod_infos ≡ []
      → workload.spec.count_threshold ≡ pos (suc n)
      → Leads (Is c) (fill_change_pod api c workload) (λ _ s.
        (pods : List Pod) × AreChosen api c pods
        × Has Is (filled c pods) (IsStamped pre_wait c.status) s)
  unfolding fill_change_pod set_change_pod_pre_wait_status
  Leads-fill c workload n e t = Leads-bind _ _ (Leads-found c e) (λ found.
      Leads-some _ (λ (f, waits_all).
        let (s0, array, a, k, h) = f in
        Leads-bind {Q = λ pods s. (AreChosen api c pods × AreWaiting pods) × Is c s} _ _
          (Leads-or_crash _ (take (suc n) found) (rw t (cut_at_threshold_lem found (suc n))) (λ s p.
            (((found, n, f, refl, take-some n found h), take-All _ (suc n) found waits_all), p)))
          (λ pods. Leads-some _ (λ (chosen, w).
            Leads-bind _ _ (Leads-write _ _ (serves.updates c (filled c pods))) (λ stored.
              Leads-known
                (λ d. defense_processed_pods api pods >>= λ _.
                  set_change_pod_pre_wait_status api d >>= λ ready. update_status api ready)
                stored (filled c pods) (Leads-marked c pods chosen w))))))
