-- ===== src/ChangePods/Batches.antt =====
-- The size and the members of a batch, and what happens to a batch that was begun.
use mathlib.Core.Path.{subst}
use altershield_operator.Base.{
  ◌≡◌, ◌≢◌, refl, ◌≤◌, Bool, true, false, ℕ, zero, suc, List, [], ◌∷◌, some, All, keep, length,
  take, arith, Bool-cases, inl, inr, not, is_nil, length-take-le, ap, ltb, sym, ◌∙◌, ◌&&◌,
}
use altershield_operator.Base.Int.{pos}
use altershield_operator.Base.Labels.{get_label?, has_label}
use altershield_operator.Utils.Constants.{
  operate_finished_label, defense_status_label, defense_status_label_processed,
}
use altershield_operator.Calls.{Call, patch_pod, update_change_pod}
use altershield_operator.Exec.{done}
use altershield_operator.Exec.Issues.{Issues, Issues-if}
use altershield_operator.Client.{Client}
use altershield_operator.Predicates.{
  is_preparing, is_finished, is_defensed, filter_pod_without_finished_or_defensed_label,
}
use altershield_operator.Types.{ChangePod, ChangeWorkload, Pod}
use altershield_operator.ChangePods.Batch.{cut_at_threshold}
use altershield_operator.ChangePods.Reconcile.{execute_init_handle}
use altershield_operator.ChangePods.Writes.{
  filled, pods_of, Issues-fill_change_pod, Issues-mark_defensed_pods,
}

nil_of_IsNil : {A : Type 0} (xs : List A) → not (is_nil xs) ≡ false → xs ≡ []
nil_of_IsNil [] e = refl
nil_of_IsNil (x ∷ xs) e = cc

pub keep-All : {A : Type 0} (p : A → Bool) (xs : List A) → All (λ x. p x ≡ true) (keep p xs)
keep-All p [] = tt
keep-All p (x ∷ xs) = elim (Bool-cases (p x)) [
  | inl e ↦ rw e (e, keep-All p xs)
  | inr e ↦ rw e (keep-All p xs)
]

pub take-All : {A : Type 0} (P : A → Type 0) (n : ℕ) (xs : List A) → All P xs → All P (take n xs)
take-All P zero xs h = tt
take-All P (suc n) [] h = tt
take-All P (suc n) (x ∷ xs) h = (h.0, take-All P n xs h.1)

take_all : {A : Type 0} (n : ℕ) (xs : List A) → length xs ≤ n → take n xs ≡ xs
take_all zero [] h = refl
take_all zero (x ∷ xs) h = absurd (omega arith)
take_all (suc n) [] h = refl
take_all (suc n) (x ∷ xs) h = ap (λ ys. x ∷ ys) (take_all n xs (omega arith))

-- The cut at a threshold that is not negative never panics, and leaves the first pods, as many as the
-- threshold or all of them if they are fewer.
pub cut_at_threshold_lem :
    (pods : List Pod) (n : ℕ) → cut_at_threshold pods (pos n) ≡ some (take n pods)
unfolding cut_at_threshold
cut_at_threshold_lem pods n = elim (Bool-cases (ltb n (length pods))) [
  | inl e ↦ ground arith
  | inr e ↦ ground (arith, take_all n pods)
]

-- A pod that waits for a batch has the label of a finished pod and not that of a defensed one.
abbrev pub waits : Pod → Bool
waits pod =
    has_label operate_finished_label pod.labels && not (has_label defense_status_label pod.labels)

-- A write of a change pod's pods fills it with the first of the pods that wait, as many as the given number
-- or all of them, in a list of its version's pods that the server gave; some wait, and nothing else of the
-- change pod changes.
abbrev pub FillsWithin : {S : Type 0} → Client S → ℕ → ChangePod → Call → Type 0
FillsWithin {S} api n c (update_change_pod d) =
    (s : S) × (array : List Pod) × (pods_of api c s ≡ done array)
    × (is_nil (keep waits array) ≡ false)
    × (d ≡ filled c (take n (keep waits array)))
    × (length (take n (keep waits array)) ≤ n)
FillsWithin api n c _ = Unit

-- A mark of a pod: the label is set to processed, and nothing but the labels changes.
abbrev pub Marks : Call → Type 0
Marks (patch_pod a b) =
    (get_label? defense_status_label b.labels ≡ some defense_status_label_processed)
    × (b ≡ record a { labels = b.labels })
Marks _ = ⊥

module _ {S : Type 0} (api : Client S) (c : ChangePod) (workload : ChangeWorkload) where
  fills :
      (n : ℕ) (s : S) (array pods : List Pod)
      → workload.spec.count_threshold ≡ pos n
      → pods_of api c s ≡ done array
      → is_nil (filter_pod_without_finished_or_defensed_label array) ≡ false
      → cut_at_threshold
          (filter_pod_without_finished_or_defensed_label array)
          workload.spec.count_threshold
        ≡ some pods
      → FillsWithin api n c (update_change_pod (filled c pods))
  unfolding filter_pod_without_finished_or_defensed_label is_preparing is_finished is_defensed
  fills n s array pods h a some_wait cut =
      let e : some (take n (keep waits array)) ≡ some pods =
        sym (cut_at_threshold_lem (keep waits array) n)
        ∙ subst (λ t. cut_at_threshold (keep waits array) t ≡ some pods) h cut in
      let q : take n (keep waits array) ≡ pods = ground arith in
      (s, array, a, some_wait, ap (filled c) (sym q), length-take-le n (keep waits array))

  -- Whatever the server answers, where the workload's threshold is not negative, a change pod in its initial
  -- status is filled only with the first pods, as many as the threshold or all of them, of those that have
  -- the label of a finished pod and not that of a defensed one in a list of its version's pods that the
  -- server gave and that has some; nothing else of the change pod changes in that write.
  pub execute_init_handle-FillsWithin :
      (n : ℕ)
      → workload.spec.count_threshold ≡ pos n
      → Issues (FillsWithin api n c) (execute_init_handle api c workload)
  unfolding execute_init_handle
  execute_init_handle-FillsWithin n h =
      Issues-if (not (is_nil c.spec.pod_infos)) _ _
        (λ _. Issues-mark_defensed_pods api (λ pod l e. tt) c.spec.pod_infos)
        (λ _.
          Issues-fill_change_pod api (λ pod l e. tt) c workload tt
            (λ s array pods a some_wait cut. fills n s array pods h a some_wait cut) (λ d p. tt))

  -- A change pod in the initial status that has pods already is only marked for again: whatever the
  -- server answers, its status is never written, so this handler never takes it on.
  pub execute_init_handle-Marks :
      c.spec.pod_infos ≢ [] → Issues Marks (execute_init_handle api c workload)
  unfolding execute_init_handle
  execute_init_handle-Marks h =
      Issues-if (not (is_nil c.spec.pod_infos)) _ _
        (λ _. Issues-mark_defensed_pods api (λ pod l e. (e, refl)) c.spec.pod_infos)
        (λ e. absurd (h (nil_of_IsNil c.spec.pod_infos e)))
