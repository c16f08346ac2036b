-- ===== src/PodController/Marks.antt =====
-- What the pod controller writes.
use altershield_operator.Base.{String, ◌≡◌, refl, true, false, ◌==◌, some}
use altershield_operator.Base.Labels.{has_label, get_label?, set_label, get_label?-set_label}
use altershield_operator.Calls.{Call, update_pod}
use altershield_operator.Exec.{done, failed}
use altershield_operator.Exec.Issues.{
  Issues, Issues-bind, Issues-bind_knowing, Issues-if, Issues-pure, Issues-write, Issues-ask,
  Issues-sample, Issues-attempt, Issues-or_crash, Issues-ignore_not_found, Returns-or_crash,
  Returns-attempt-ask,
}
use altershield_operator.Client.{Client}
use altershield_operator.Predicates.{is_finished}
use altershield_operator.PodController.{mark_as_finished, reconcile}
use altershield_operator.Types.{Pod, NamespacedName}
use altershield_operator.Utils.Constants.{operate_finished_label}

-- A pod that the server gave for this name and that is not finished is updated to one with the mark of a
-- finished pod, with every other label kept.
abbrev pub Finishes : {S : Type 0} → Client S → NamespacedName → Call → Type 0
Finishes {S} api key (update_pod after) =
    (s : S) × (pod : Pod) × ((api.get_pod key s).0 ≡ done pod)
    × (has_label operate_finished_label pod.labels ≡ false)
    × (has_label operate_finished_label after.labels ≡ true)
    × (after ≡ record pod { labels = after.labels })
    × ((k : String)
        → (operate_finished_label == k) ≡ false
        → get_label? k after.labels ≡ get_label? k pod.labels)
Finishes api key _ = ⊥

module _ {S : Type 0} (api : Client S) where
  pub finished_after :
      (pod : Pod) (v : String) {l : _}
      → set_label operate_finished_label v pod.labels ≡ some l
      → is_finished (record pod { labels = l }) ≡ true
  unfolding is_finished has_label
  finished_after pod v h =
      rw
        (
          is_finished,
          has_label,
          get_label?-set_label operate_finished_label v operate_finished_label pod.labels h,
        )
        refl

  Issues-mark :
      (key : NamespacedName) (s : S) (pod : Pod)
      → (api.get_pod key s).0 ≡ done pod
      → is_finished pod ≡ false
      → Issues (Finishes api key) (mark_as_finished api pod)
  unfolding mark_as_finished is_finished
  Issues-mark key s pod found e = Issues-bind _ _ (Issues-sample _) (λ unix.
      Issues-bind_knowing _ _ (Issues-or_crash _) (Returns-or_crash _ (λ l h. h)) (λ l h.
        Issues-bind _ _
          (Issues-write _ _ (
            s,
            pod,
            found,
            e,
            finished_after pod _ h,
            refl,
            (λ k n. rw (get_label?-set_label operate_finished_label _ k pod.labels h, n) refl),
          ))
          (λ _. Issues-pure tt)))

  -- Whatever the server answers, the pod controller, for the name of a pod, writes nothing but updates of a
  -- pod that the server gave for that name and that lacks the label of a finished pod, to one that has it;
  -- they keep every other label and all besides the labels.
  pub reconcile-Finishes : (key : NamespacedName) → Issues (Finishes api key) (reconcile api key)
  unfolding reconcile
  reconcile-Finishes key =
      Issues-bind_knowing _ _ (Issues-attempt _ (Issues-ask _))
        (Returns-attempt-ask (api.get_pod key))
        (elim [
          | failed e ↦ λ known. Issues-ignore_not_found e tt
          | done pod ↦ λ known.
              Issues-if (is_finished pod) _ _ (λ _. Issues-pure tt)
                (λ e. Issues-mark key known.0 pod known.1 e)
        ])
