-- ===== src/Workloads/Outcomes.antt =====
-- What the sync of a change workload may write.
use mathlib.Core.Path.{subst}
use altershield_operator.Base.{
  String, ◌≡◌, ◌≤◌, refl, ap, sym, ◌∙◌, Bool, true, false, ◌&&◌, List, [], ◌∷◌, ◌⊎◌, inl, inr,
  is_nil, ℕ, length, ltb, keep, Option, none, some, arith, Bool-cases,
}
use altershield_operator.Base.Int.{ℤ, pos, negsuc, leb_ℤ, eqb_ℤ}
use altershield_operator.Base.Labels.{has_label, label}
use altershield_operator.Exec.{done}
use altershield_operator.Exec.Issues.{Returns, Returns-bind_knowing, Returns-pure, Returns-ask}
use altershield_operator.Client.{Client}
use altershield_operator.Predicates.{filter_pod_without_finished_label, is_finished}
use altershield_operator.Types.{ChangeWorkload, Deployment, Pod, PodSummary}
use altershield_operator.Types.State.{success, suspend}
use altershield_operator.Utils.Constants.{
  admission_webhook_version_label, deployment_kind, operate_finished_label,
}
use altershield_operator.Utils.Pods.Distinct.{AreDistinct}
use altershield_operator.Workloads.Query.{
  get_all_pods_by_version, get_owner_deployment, get_finished_pods_by_workload,
  get_all_pods_by_workload, first_owner, empty_deployment,
}
use altershield_operator.Workloads.Sync.{validated_state}

-- The pods of a list that have the label of a finished pod.
abbrev pub finished_in : List Pod → List Pod
finished_in array = keep (λ pod. has_label operate_finished_label pod.labels) array

module _ {S : Type 0} (api : Client S) (w : ChangeWorkload) where
  -- The server gave this deployment for the owner of the workload.
  abbrev pub IsOwner : Deployment → Type 0
  IsOwner d =
      (name : String) × (first_owner deployment_kind w.owner_references ≡ some name)
      × ((s : S) × ((api.get_deployment (record { namespace = w.namespace; name = name }) s).0
            ≡ done d))

  -- The server gave this list of the pods of the workload's version.
  abbrev pub AreOwnPods : List Pod → Type 0
  AreOwnPods array =
      (s : S) × ((api.list_pods w.namespace
          ((admission_webhook_version_label, label admission_webhook_version_label w.labels) ∷ [])
          s).0
        ≡ done array)

  -- As many pods passed as the deployment has replicas, and at least as many are finished.
  abbrev pub HasPassed : ℕ → Type 0
  HasPassed pass =
      (d : Deployment) × (array : List Pod) × IsOwner d
      × AreOwnPods array
      × (d.spec_replicas ≡ some (pos pass))
      × (pass ≤ length (finished_in array))

  -- The workload with other lists of checked pods, another status and other update times, and nothing else
  -- changed. The lists name no pod twice. Where a pod failed the status is suspended, and else it is as
  -- before, or successful if every replica passed.
  abbrev pub IsVerdict : ChangeWorkload → Type 0
  IsVerdict after =
      (after ≡ record w {
        status = record w.status {
          defense_check_pass_pods = after.status.defense_check_pass_pods;
          defense_check_fail_pods = after.status.defense_check_fail_pods;
          status = after.status.status;
          update_time = after.status.update_time;
          update_time_unix = after.status.update_time_unix;
        };
      })
      × AreDistinct after.status.defense_check_pass_pods
      × AreDistinct after.status.defense_check_fail_pods
      × ((is_nil after.status.defense_check_fail_pods ≡ false) × (after.status.status ≡ suspend)
          ⊎ (is_nil after.status.defense_check_fail_pods ≡ true)
            × ((after.status.status ≡ w.status.status)
                ⊎ (after.status.status ≡ success)
                  × HasPassed (length after.status.defense_check_pass_pods)))

  -- The workload with the two lists in memory.
  abbrev pub with_checked : List PodSummary → List PodSummary → ChangeWorkload
  with_checked pass fail = record w {
    status = record w.status { defense_check_pass_pods = pass; defense_check_fail_pods = fail };
  }

pos_counts : (pass : ℕ) (n : ℤ) → eqb_ℤ (pos pass) n ≡ true → n ≡ pos pass
pos_counts pass (pos n) h = ground arith
pos_counts pass (negsuc n) h = ground arith

enough : (pass finished : ℕ) → leb_ℤ (pos pass) (pos finished) ≡ true → pass ≤ finished
enough pass finished h = ground arith

both : (a b : Bool) → (a && b) ≡ true → (a ≡ true) × (b ≡ true)
both true b h = (refl, h)
both false b h = absurd cc

some_failed : (us : List PodSummary) → is_nil us ≡ false → ltb 0 (length us) ≡ true
some_failed [] h = absurd cc
some_failed (u ∷ us) h = ground arith

none_failed : (us : List PodSummary) → is_nil us ≡ true → ltb 0 (length us) ≡ false
none_failed [] h = ground arith
none_failed (u ∷ us) h = absurd cc

-- The three verdicts.
validated_state-cases :
    (w : ChangeWorkload) (finished : ℕ) (replicas : ℤ)
    → ((is_nil w.status.defense_check_fail_pods ≡ false)
        × (validated_state w finished replicas ≡ suspend))
      ⊎ (is_nil w.status.defense_check_fail_pods ≡ true)
        × ((validated_state w finished replicas ≡ w.status.status)
            ⊎ (validated_state w finished replicas ≡ success)
              × ((replicas ≡ pos (length w.status.defense_check_pass_pods))
                  × (length w.status.defense_check_pass_pods ≤ finished)))
unfolding validated_state
validated_state-cases w finished replicas =
    let pass = length w.status.defense_check_pass_pods in
    elim (Bool-cases (is_nil w.status.defense_check_fail_pods)) [
      | inr e ↦ inl (e, rw (some_failed w.status.defense_check_fail_pods e) refl)
      | inl e ↦
          let f = none_failed w.status.defense_check_fail_pods e in
          elim (Bool-cases (leb_ℤ replicas (pos finished) && eqb_ℤ (pos pass) replicas)) [
            | inr g ↦ inr (e, inl (rw (f, g) refl))
            | inl g ↦
                let (x, y) = both _ _ g in
                let n = pos_counts pass replicas y in
                inr (
                  e,
                  inr (
                    rw (f, g) refl,
                    (n, enough pass finished (subst (λ m. leb_ℤ m (pos finished) ≡ true) n x)),
                  ),
                )
          ]
    ]

module _ {S : Type 0} (api : Client S) (w : ChangeWorkload) where
  pub Returns-get_owner_deployment :
      (o : Option String)
      → Returns
          (λ d.
            (d ≡ empty_deployment)
            ⊎ ((name : String) × (o ≡ some name)
                × ((s : S) × ((api.get_deployment
                        (record { namespace = w.namespace; name = name })
                        s).0
                      ≡ done d))))
          (get_owner_deployment api w.namespace o)
  unfolding get_owner_deployment
  Returns-get_owner_deployment none = Returns-pure _ (inl refl)
  Returns-get_owner_deployment (some name) = Returns-ask _ (λ s d e. inr (name, refl, (s, e)))

  pub Returns-get_finished_pods :
      Returns
        (λ found. (array : List Pod) × AreOwnPods api w array × (found ≡ finished_in array))
        (get_finished_pods_by_workload api w)
  unfolding get_finished_pods_by_workload get_all_pods_by_workload get_all_pods_by_version
      filter_pod_without_finished_label is_finished
  Returns-get_finished_pods =
      Returns-bind_knowing _ _
        (Returns-ask {R = λ array. AreOwnPods api w array} _ (λ s array e. (s, e)))
        (λ array e. Returns-pure _ (array, e, refl))

  not_empty :
      (d : Deployment) (replicas : ℤ)
      → (d ≡ empty_deployment) ⊎ IsOwner api w d
      → d.spec_replicas ≡ some replicas
      → IsOwner api w d
  not_empty d replicas (inl e) n =
      absurd (none_some (sym (ap (λ (x : Deployment). x.spec_replicas) e) ∙ n))
    where
      none_some : {A : Type 0} {a : A} → none ≡ some a → ⊥
      none_some p = cc
  not_empty d replicas (inr o) n = o

  -- What the verdict rests on.
  pub verdict :
      (pass fail : List PodSummary) (d : Deployment) (replicas : ℤ) (finished : List Pod)
      (time : String) (unix : ℤ)
      → AreDistinct pass
      → AreDistinct fail
      → (d ≡ empty_deployment) ⊎ IsOwner api w d
      → d.spec_replicas ≡ some replicas
      → ((array : List Pod) × AreOwnPods api w array × (finished ≡ finished_in array))
      → IsVerdict api w (record (with_checked api w pass fail) {
        status = record (with_checked api w pass fail).status {
          status = validated_state (with_checked api w pass fail) (length finished) replicas;
          update_time = time;
          update_time_unix = unix;
        };
      })
  verdict pass fail d replicas finished time unix hp hf owner n (array, own, e) = (
    refl,
    hp,
    hf,
    elim (validated_state-cases (with_checked api w pass fail) (length finished) replicas) [
      | inl h ↦ inl h
      | inr (h, inl k) ↦ inr (h, inl k)
      | inr (h, inr (k, (same, count))) ↦ inr (
        h,
        inr (
          k,
          (
            d,
            array,
            not_empty d replicas owner n,
            own,
            n ∙ ap some same,
            subst (λ l. length pass ≤ length l) e count,
          ),
        ),
      )
    ],
  )
