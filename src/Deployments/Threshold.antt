-- ===== src/Deployments/Threshold.antt =====
-- How the configured percentage of a deployment's replicas limits the batches of its release.
use altershield_operator.Base.{
  ℕ, ◌*◌, ◌/◌, ◌≤◌, ◌<◌, ◌^◌, ◌≡◌, refl, true, some, if◌then◌else◌, ltb, eqb, ap, ◌∙◌,
}
use altershield_operator.Base.Int.{ℤ, pos}
use altershield_operator.Client.{Client}
use altershield_operator.ChangePods.Batches.{FillsWithin, execute_init_handle-FillsWithin}
use altershield_operator.ChangePods.Reconcile.{execute_init_handle}
use altershield_operator.ChangePods.Status.{get_now_time}
use altershield_operator.Deployments.{count_threshold_of, new_change_workload}
use altershield_operator.Exec.{ok, Exec, World, ◌>>=◌}
use altershield_operator.Exec.Issues.{Issues}
use altershield_operator.Types.{ChangePod, ChangeWorkload, Deployment}
use altershield_operator.Utils.Percent.{percent, percent_bounds}

-- The batch size of `n` replicas at a rate.
abbrev pub share : ℕ → ℕ → ℕ
share n rate = if eqb rate 0 then 1 else if ltb 100 rate then n else n * rate / 100

bind-ok :
    {S A B : Type 0} (m : Exec S A) (f : A → Exec S B) (a : A) (v : World S)
    → (m v).0 ≡ ok a
    → (m >>= f) v ≡ f a (m v).1
unfolding ◌>>=◌
bind-ok m f a v h = rw h refl

module _ {S : Type 0} (api : Client S) (d : Deployment) (v : World S) where
  -- The configuration that the factory reads.
  abbrev pub Configured : ℤ → Type 0
  Configured rate =
      ((api.is_batch v.server).0 ≡ true) × ((api.batch_count (api.is_batch v.server).1).0 ≡ rate)

  -- The factory makes a workload of this threshold.
  abbrev pub Makes : ℤ → ChangeWorkload → Type 0
  Makes threshold w =
      ((new_change_workload api d v).0 ≡ ok w) × (w.spec.count_threshold ≡ threshold)

  threshold_lem :
      (replicas rate : ℤ)
      → Configured rate
      → d.spec_replicas ≡ some replicas
      → (count_threshold_of api d v).0 ≡ ok (percent replicas rate)
  unfolding count_threshold_of ◌>>=◌
  threshold_lem replicas rate (e, f) r = rw (e, r, f) refl

  -- The rest of the factory cannot fail.
  makes :
      (threshold : ℤ)
      → (count_threshold_of api d v).0 ≡ ok threshold
      → (w : ChangeWorkload) × Makes threshold w
  unfolding new_change_workload get_now_time ◌>>=◌
  makes threshold h =
      (_, (ap (λ r. r.0) (bind-ok (count_threshold_of api d) _ threshold v h), refl))

  -- Where batches are configured with a rate, and the deployment has a positive number of replicas below
  -- 2^31, the factory makes a workload whose threshold is 1 at rate 0, the number of replicas above rate 100,
  -- and else the exact share rounded down, and never more than the replicas. Whatever the server answers,
  -- each change pod of that workload is filled only with the first pods, as many as that or all of them, of
  -- those that have the label of a finished pod and not that of a defensed one in a list of its version's
  -- pods that the server gave.
  pub new_change_workload-Limits :
      (n rate : ℕ)
      → 0 < n
      → n < 2 ^ 31
      → Configured (pos rate)
      → d.spec_replicas ≡ some (pos n)
      → (w : ChangeWorkload) × Makes (pos (share n rate)) w
        × (share n rate ≤ n)
        × ((c : ChangePod)
            → Issues (FillsWithin api (share n rate) c) (execute_init_handle api c w))
  new_change_workload-Limits n rate h small e r =
      let (exact, bound) = percent_bounds n rate h small in
      let (w, (made, limit)) =
        makes (percent (pos n) (pos rate)) (threshold_lem (pos n) (pos rate) e r) in
      (
        w,
        (made, limit ∙ exact),
        bound,
        λ c. execute_init_handle-FillsWithin api c w (share n rate) (limit ∙ exact),
      )
