-- ===== src/Workloads/Verdicts.antt =====
-- What `syncChangeWorkloadStatus` gathers from the finished change pods.
use altershield_operator.Base.{
  ◌≡◌, refl, ◌∙◌, Bool, not, List, [], ◌∷◌, ◌++◌, ◌==◌, keep, inl, inr, Bool-cases,
}
use mathlib.Core.List.{append_assoc, append-nil}
use altershield_operator.Types.{ChangePod, PodSummary}
use altershield_operator.Utils.Constants.{change_pod_verdict_pass}
use altershield_operator.Workloads.Sync.{
  pass_and_failed_from, get_pass_and_failed_pods, verdict_of, collect,
}

abbrev pub passed : PodSummary → Bool
passed r = r.verdict == change_pod_verdict_pass

pass_and_failed_from_lem :
    (pass fail rs : List PodSummary)
    → pass_and_failed_from pass fail rs
      ≡ (pass ++ keep passed rs, fail ++ keep (λ r. not (passed r)) rs)
unfolding pass_and_failed_from
pass_and_failed_from_lem pass fail [] = rw (append-nil pass, append-nil fail) refl
pass_and_failed_from_lem pass fail (r ∷ rs) = elim (Bool-cases (passed r)) [
  | inl p ↦ rw p (
      pass_and_failed_from_lem (pass ++ r ∷ []) fail rs
      ∙ rw (append_assoc pass (r ∷ []) (keep passed rs)) refl)
  | inr p ↦ rw p (
      pass_and_failed_from_lem pass (fail ++ r ∷ []) rs
      ∙ rw (append_assoc fail (r ∷ []) (keep (λ x. not (passed x)) rs)) refl)
]

-- The results of a change pod are divided by the verdict of the pod, in their order.
pub get_pass_and_failed_pods_lem :
    (c : ChangePod)
    → get_pass_and_failed_pods c
      ≡ (keep passed c.status.pod_results, keep (λ r. not (passed r)) c.status.pod_results)
unfolding get_pass_and_failed_pods
get_pass_and_failed_pods_lem c = pass_and_failed_from_lem [] [] c.status.pod_results

-- The pods that every finished change pod adds as passed, in their order, and as failed.
abbrev pub all_passed : List ChangePod → List PodSummary
all_passed [] = []
all_passed (c ∷ cs) = (verdict_of c.status.message c).0 ++ all_passed cs

abbrev pub all_failed : List ChangePod → List PodSummary
all_failed [] = []
all_failed (c ∷ cs) = (verdict_of c.status.message c).1 ++ all_failed cs

collect_lem :
    (pass fail : List PodSummary) (cs : List ChangePod)
    → collect pass fail cs ≡ (pass ++ all_passed cs, fail ++ all_failed cs)
unfolding collect
collect_lem pass fail [] = rw (append-nil pass, append-nil fail) refl
collect_lem pass fail (c ∷ cs) =
    collect_lem (pass ++ (verdict_of c.status.message c).0)
      (fail ++ (verdict_of c.status.message c).1) cs
    ∙ rw
        (
          append_assoc pass (verdict_of c.status.message c).0 (all_passed cs),
          append_assoc fail (verdict_of c.status.message c).1 (all_failed cs),
        )
        refl
