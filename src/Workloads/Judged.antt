-- ===== src/Workloads/Judged.antt =====
-- The sync of a workload against a server that keeps it: how a release whose batches all passed succeeds.
use mathlib.Core.Path.{subst}
use altershield_operator.Base.{
  ℕ, String, ◌≡◌, ◌≤◌, refl, sym, ap, ◌∙◌, Bool, true, false, ◌&&◌, List, [], ◌∷◌, some, length,
  is_nil, ltb, arith, if◌then◌else◌, Bool-cases, inl, inr,
}
use altershield_operator.Base.Int.{ℤ, pos}
use altershield_operator.Base.Labels.{Labels, nil, made, has_label, set_label}
use altershield_operator.ChangePods.Status.{get_now_time}
use altershield_operator.Client.{Client}
use altershield_operator.Exec.{Exec, pure, ◌>>=◌}
use altershield_operator.Exec.Leads.{
  Leads, Leads-pure, Leads-sample, Leads-ask, Leads-write, Leads-if, Leads-or_crash, Leads-bind,
  Leads-known, Leads-some, Leads-weaken,
}
use altershield_operator.Predicates.{filter_pod_without_finished_label}
use altershield_operator.Types.{
  ChangePod, ChangeWorkload, ChangeWorkloadStatus, Deployment, Pod, PodSummary,
}
use altershield_operator.Types.State.{success}
use altershield_operator.Utils.Constants.{deployment_kind, suspend_label, time_layout}
use altershield_operator.Utils.Pods.{MapOf, remove_duplicate_pod, is_pod_summary_slice_equal}
use altershield_operator.Workloads.Query.{
  first_owner, get_owner_deployment, get_deployment_by_workload, get_all_change_pods_by_workload,
  get_finished_change_pods_by_workload, executed_done_change_pods, get_all_pods_by_version,
  get_all_pods_by_workload, get_finished_pods_by_workload, get_all_pod_map_by_workload, pod_map,
}
use altershield_operator.Workloads.Suspend.{
  released_labels, patch_labels, remove_suspend_label, add_or_remove_deployment_suspend_label,
}
use altershield_operator.Workloads.Sync.{
  collect, validated_state, update_status, validate_success_or_suspend, update_checked_pods,
  sync_change_workload_status,
}
use altershield_operator.Workloads.Synced.{pass_pods, fail_pods}
use altershield_operator.Workloads.Keeping.{
  Release, IsKeeping, passes_of, fails_of, finished_of, checked, IsJudged, IsPassed,
}

labelled :
    (k : String) (l : Labels) → has_label k l ≡ true → (m : Labels) × (released_labels l ≡ some m)
unfolding has_label released_labels set_label
labelled k nil h = absurd cc
labelled k (made entries) h = (_, refl)

none_done : (cs : List ChangePod) (m : MapOf Pod) → is_nil cs ≡ true → length (pass_pods cs m) ≡ 0
unfolding collect remove_duplicate_pod
none_done [] m e = refl
none_done (c ∷ cs) m e = absurd cc

no_fails : (us : List PodSummary) → is_nil us ≡ true → ltb 0 (length us) ≡ false
no_fails [] e = refl
no_fails (u ∷ us) e = absurd cc

passed-success :
    (w : ChangeWorkload) (pass fail : List PodSummary) (finished n : ℕ)
    → ltb 0 (length fail) ≡ false
    → length pass ≡ n
    → n ≤ finished
    → validated_state (checked w pass fail) finished (pos n) ≡ success
unfolding validated_state
passed-success w pass fail finished n e f g = rw (e, f) (ground arith)

module _ {S : Type 0} (api : Client S) (Is : ChangeWorkload → S → Type 0) (r : Release)
    (keeping : IsKeeping api Is r) where
  Leads-remove :
      (w : ChangeWorkload) (d : Deployment)
      → Leads (Is w) (remove_suspend_label api d) (λ _ s. Is w s)
  unfolding remove_suspend_label patch_labels
  Leads-remove w d = elim (Bool-cases (has_label suspend_label d.labels)) [
    | inl e ↦
        let (m, f) = labelled suspend_label d.labels e in
        rw e (
          Leads-bind {Q = λ l s. Is w s} _ _ (Leads-or_crash _ m f (λ s p. p)) (λ l.
            Leads-bind _ _ (Leads-write _ _ (keeping.patches_deployment w d _))
              (λ stored. Leads-pure tt (λ s p. p))))
    | inr e ↦ rw e (Leads-pure tt (λ s p. p))
  ]

  Leads-update :
      (w : ChangeWorkload) (u : ChangeWorkloadStatus)
      → Leads
          (Is w)
          (update_status api (record w { status = u }))
          (λ _ s. IsJudged Is w u.defense_check_pass_pods u.defense_check_fail_pods u.status s)
  unfolding update_status get_now_time
  Leads-update w u = Leads-bind _ _ (Leads-sample _ (keeping.keeps_now_text w time_layout)) (λ time.
      Leads-bind _ _ (Leads-sample _ (keeping.keeps_now w)) (λ unix.
        let t : ChangeWorkloadStatus = record u { update_time = time; update_time_unix = unix } in
        Leads-bind _ _ (Leads-write _ _ (keeping.updates_status w (record w { status = t })))
          (λ stored. Leads-pure tt (λ s p. (t, (refl, refl, refl), p)))))

  Leads-deployment :
      (w : ChangeWorkload) (t : ChangeWorkloadStatus) (name : String)
      → first_owner deployment_kind w.owner_references ≡ some name
      → Leads
          (Is w)
          (get_deployment_by_workload api (record w { status = t }))
          (λ d s. (d ≡ r.deployment) × Is w s)
  unfolding get_deployment_by_workload get_owner_deployment
  Leads-deployment w t name e =
      subst
        (λ o.
          Leads (Is w) (get_owner_deployment api w.namespace o)
            (λ d s. (d ≡ r.deployment) × Is w s))
        (sym e) (Leads-ask _ (keeping.gets_deployment w name e))

  Leads-finished :
      (w : ChangeWorkload) (t : ChangeWorkloadStatus)
      → Leads
          (Is w)
          (get_finished_pods_by_workload api (record w { status = t }))
          (λ pods s. (pods ≡ finished_of r) × Is w s)
  unfolding get_finished_pods_by_workload get_all_pods_by_workload get_all_pods_by_version
  Leads-finished w t = Leads-bind _ _ (Leads-ask _ (keeping.lists_pods w)) (λ pods.
      Leads-known (λ xs. pure (filter_pod_without_finished_label xs)) pods r.pods
        (Leads-pure _ (λ s p. (refl, p))))

  Leads-label :
      (w : ChangeWorkload) (d : Deployment) (failing : Bool)
      → failing ≡ false
      → Leads (Is w) (add_or_remove_deployment_suspend_label api d failing) (λ _ s. Is w s)
  unfolding add_or_remove_deployment_suspend_label
  Leads-label w d true e = absurd cc
  Leads-label w d false e = Leads-remove w d

  -- Where no pod failed, a workload with these lists in memory is stored with them and its new status.
  Leads-validate :
      (w : ChangeWorkload) (name : String) (pass fail : List PodSummary)
      → first_owner deployment_kind w.owner_references ≡ some name
      → ltb 0 (length fail) ≡ false
      → Leads (Is w) (validate_success_or_suspend api (checked w pass fail)) (λ _ s.
        IsJudged Is w pass fail
          (validated_state (checked w pass fail) (length (finished_of r)) (pos r.replicas))
          s)
  unfolding validate_success_or_suspend
  Leads-validate w name pass fail e none_failed = Leads-bind _ _ (Leads-deployment w _ name e) (λ d.
      Leads-some {P = λ _ s. Is w s} _ (λ is_d.
        Leads-bind _ _
          (Leads-or_crash {Q = λ n s. (n ≡ pos r.replicas) × Is w s} _ (pos r.replicas)
            (ap (λ (x : Deployment). x.spec_replicas) is_d ∙ keeping.has_replicas)
            (λ s p. (refl, p)))
          (λ replicas. Leads-some {P = λ _ s. Is w s} _ (λ is_n.
            Leads-bind _ _ (Leads-finished w _) (λ finished.
              Leads-some {P = λ _ s. Is w s} _ (λ is_f.
                Leads-bind _ _ (Leads-label w d _ none_failed) (λ _.
                  Leads-weaken _
                    (Leads-update w (record (checked w pass fail).status {
                      status = validated_state (checked w pass fail) (length finished) replicas;
                    }))
                    (λ _ s q.
                      (q.0, (q.1.0 ∙ state finished replicas is_f is_n, q.1.1, q.1.2), q.2)))))))))
    where
      state :
          (finished : List Pod) (replicas : ℤ)
          → finished ≡ finished_of r
          → replicas ≡ pos r.replicas
          → validated_state (checked w pass fail) (length finished) replicas
            ≡ validated_state (checked w pass fail) (length (finished_of r)) (pos r.replicas)
      state finished replicas f n = rw (f, n) refl

  -- What a sync does with the change pods and the pods that it read.
  abbrev judged_by : ChangeWorkload → List ChangePod → MapOf Pod → Exec S (Unit {0})
  judged_by w cs m =
      if is_nil cs then pure tt else update_checked_pods api w (pass_pods cs m) (fail_pods cs m)

  Leads-sync :
      (w : ChangeWorkload) (R : S → Type 0)
      → Leads
          (Is w)
          (judged_by w (executed_done_change_pods r.change_pods) (pod_map [] r.pods))
          (λ _ s. R s)
      → Leads (Is w) (sync_change_workload_status api w) (λ _ s. R s)
  unfolding sync_change_workload_status get_finished_change_pods_by_workload
      get_all_change_pods_by_workload get_all_pod_map_by_workload get_all_pods_by_version
  Leads-sync w R h =
      Leads-bind {Q = λ cs s. (cs ≡ executed_done_change_pods r.change_pods) × Is w s} _ _
        (Leads-bind _ _ (Leads-ask _ (keeping.lists_change_pods w)) (λ cs.
          Leads-known (λ x. pure (executed_done_change_pods x)) cs r.change_pods
            (Leads-pure _ (λ s p. (refl, p)))))
        (λ cs.
          Leads-known (λ x. get_all_pod_map_by_workload api w >>= judged_by w x) cs
            (executed_done_change_pods r.change_pods)
            (Leads-bind {Q = λ m s. (m ≡ pod_map [] r.pods) × Is w s} _ _
              (Leads-bind _ _ (Leads-ask _ (keeping.lists_pods w)) (λ pods.
                Leads-known (λ x. pure (pod_map [] x)) pods r.pods
                  (Leads-pure _ (λ s p. (refl, p)))))
              (λ m.
                Leads-known (judged_by w (executed_done_change_pods r.change_pods)) m
                  (pod_map [] r.pods) h)))

  -- A release whose pods all passed succeeds. Against a server that keeps the workload and answers with what
  -- the release has, where every replica of the deployment that owns the workload passed and the workload does
  -- not store the lists of the passed and of the failed pods yet, the sync of the workload ends without an error, and then the server has the workload as successful, with exactly the pods
  -- that passed and no failed ones.
  pub sync_change_workload_status-IsJudged :
      (w : ChangeWorkload) (name : String)
      → first_owner deployment_kind w.owner_references ≡ some name
      → IsPassed r
      → (is_pod_summary_slice_equal (passes_of r) w.status.defense_check_pass_pods
          && is_pod_summary_slice_equal (fails_of r) w.status.defense_check_fail_pods)
        ≡ false
      → Leads
          (Is w)
          (sync_change_workload_status api w)
          (λ _ s. IsJudged Is w (passes_of r) (fails_of r) success s)
  unfolding update_checked_pods
  sync_change_workload_status-IsJudged w name e (some_replicas, count, none_failed, finished)
        fresh =
      let done_pods = executed_done_change_pods r.change_pods in
      let no_fail = no_fails (fails_of r) none_failed in
      let won =
        passed-success w (passes_of r) (fails_of r) (length (finished_of r)) r.replicas no_fail
          count finished in
      Leads-sync w _ (
        Leads-if (is_nil done_pods) _ _
          (λ none.
            absurd
              (omega (arith, none_done done_pods (pod_map [] r.pods) none, count, some_replicas)))
          (λ _. rw fresh (
            Leads-weaken _ (Leads-validate w name (passes_of r) (fails_of r) e no_fail)
              (λ _ s q. (q.0, (q.1.0 ∙ won, q.1.1, q.1.2), q.2)))))
