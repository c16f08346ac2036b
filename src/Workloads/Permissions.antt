-- ===== src/Workloads/Permissions.antt =====
-- What the change workload controller may write.
use altershield_operator.Base.{String, ◌≡◌, refl, Bool, false, [], ◌⊎◌, ℕ, ◌==◌, none, inl, inr}
use altershield_operator.Base.Int.{ℤ}
use altershield_operator.Calls.{
  Call, create_change_pod, patch_workload_status, update_workload_status, patch_deployment,
  delete_workload,
}
use altershield_operator.Exec.{done, failed}
use altershield_operator.Exec.Issues.{
  Issues, Returns, Returns-bind, Returns-bind_knowing, Returns-if, Returns-attempt-write,
  Returns-pure, Issues-bind, Issues-bind_knowing, Issues-if, Issues-pure, Issues-write,
  Issues-sample, Issues-attempt, issues_rules,
}
use altershield_operator.Client.{Client}
use altershield_operator.Types.{ChangePod, ChangeWorkload}
use altershield_operator.Types.State.{
  init, running, success, failed, time_out_pre_threshold, execute_init,
}
use altershield_operator.Webhook.{validate_update}
use altershield_operator.ChangePods.Status.{get_now_time}
use altershield_operator.Workloads.Query.{
  get_all_change_pods_by_workload, get_all_pods_by_version, get_all_pods_by_workload,
  get_finished_without_defensed_pods_by_workload, is_defense_preparing_pods_threshold_reached,
  is_defense_preparing_pods_exist,
}
use altershield_operator.Workloads.Outcomes.{IsVerdict}
use altershield_operator.Workloads.Create.{
  new_change_pod, create_new_change_pod, is_exist_init_status_change_pod, patch_workload_entry_time,
  is_necessary, ensure_init_change_pod,
}

-- The workload with other entry times.
abbrev pub with_entry : ChangeWorkload → String → ℤ → ChangeWorkload
with_entry w time unix = record w {
  status = record w.status { entry_time = time; entry_time_unix = unix };
}

-- The workload that a handler has in hand: the one that it was given, that with new entry times, or what the
-- server answered to the patch of these.
abbrev pub IsInHand : {S : Type 0} → Client S → ChangeWorkload → ChangeWorkload → Type 0
IsInHand {S} api w v =
    (v ≡ w)
    ⊎ ((time : String) × (unix : ℤ) × ((v ≡ with_entry w time unix)
          ⊎ ((s : S) × ((api.patch_workload_status w (with_entry w time unix) s).0 ≡ done v))))

-- The workload with the running status and other update times, and nothing else changed.
abbrev pub IsRunning : ChangeWorkload → ChangeWorkload → Type 0
IsRunning v after =
    (time : String) × (unix : ℤ) × (after ≡ record v {
      status = record v.status { status = running; update_time = time; update_time_unix = unix };
    })

-- The writes that a workload permits its controller.
abbrev pub Permitted : {S : Type 0} → Client S → ChangeWorkload → Call → Type 0
Permitted api w (create_change_pod c) =
    (fresh : ChangePod) × (c ≡ api.own_change_pod w fresh)
    × (fresh.status.status ≡ execute_init)
    × (fresh.spec.change_workload_id ≡ w.name)
    × (fresh.spec.pod_infos ≡ [])
Permitted api w (patch_workload_status before after) =
    (before ≡ w) × ((time : String) × (unix : ℤ) × (after ≡ with_entry w time unix))
Permitted api w (update_workload_status after) =
    (v : ChangeWorkload) × IsInHand api w v
    × ((((w.status.status ≡ init) ⊎ (w.status.status ≡ time_out_pre_threshold)) × IsRunning v after)
        ⊎ IsVerdict api v after)
Permitted api w (patch_deployment before after) = validate_update after before ≡ none
Permitted api w (delete_workload v) = (w.status.status ≡ success) × ((v.name == w.name) ≡ false)
Permitted api w _ = ⊥

-- The rest of what the controller does with one workload.
module _ {S : Type 0} (api : Client S) (w : ChangeWorkload) where
  Issues-count : {Q : Call → Type 0} → Issues Q (is_exist_init_status_change_pod api w)
  unfolding is_exist_init_status_change_pod get_all_change_pods_by_workload
  Issues-count = search issues_rules

  pub Issues-is_necessary : {Q : Call → Type 0} (b : Bool) → Issues Q (is_necessary api w b)
  unfolding is_necessary is_defense_preparing_pods_threshold_reached is_defense_preparing_pods_exist
      get_finished_without_defensed_pods_by_workload get_all_pods_by_workload
      get_all_pods_by_version
  Issues-is_necessary b =
      Issues-if b _ _
        (λ _.
          Issues-bind _ _ (Issues-attempt _ (search issues_rules))
            (elim [ failed e ↦ Issues-pure _ | done pods ↦ Issues-pure _ ]))
        (λ _.
          Issues-bind _ _ (Issues-attempt _ (search issues_rules))
            (elim [ failed e ↦ Issues-pure _ | done pods ↦ Issues-pure _ ]))

  Issues-create : (n : ℕ) → Issues (Permitted api w) (create_new_change_pod api w n)
  unfolding create_new_change_pod new_change_pod get_now_time
  Issues-create n =
      Issues-bind_knowing
        {R = λ fresh.
          (fresh.status.status ≡ execute_init)
          × (fresh.spec.change_workload_id ≡ w.name)
          × (fresh.spec.pod_infos ≡ [])}
        _ _ (search issues_rules)
        (Returns-bind _ _ (λ time. Returns-bind _ _ (λ unix. Returns-pure _ (refl, refl, refl))))
        (λ fresh h. Issues-write _ _ (fresh, refl, h.0, h.1, h.2))

  Issues-patch_workload_entry_time : Issues (Permitted api w) (patch_workload_entry_time api w)
  unfolding patch_workload_entry_time get_now_time
  Issues-patch_workload_entry_time = Issues-bind _ _ (Issues-sample _) (λ time.
      Issues-bind _ _ (Issues-sample _) (λ unix.
        Issues-bind _ _ (Issues-attempt _ (Issues-write _ _ (refl, (time, unix, refl))))
          (elim [ done stored ↦ Issues-pure _ | failed e ↦ Issues-pure _ ])))

  pub Issues-ensure : (b : Bool) → Issues (Permitted api w) (ensure_init_change_pod api w b)
  unfolding ensure_init_change_pod
  Issues-ensure b = Issues-bind _ _ Issues-count (λ (exist, n).
      Issues-if exist _ _ (λ _. Issues-pure _)
        (λ _. Issues-bind _ _ (Issues-is_necessary b) (λ necessary.
          Issues-if necessary _ _
            (λ _. Issues-bind _ _ (Issues-create n) (λ created.
              Issues-bind _ _ Issues-patch_workload_entry_time (λ patched. Issues-pure _)))
            (λ _. Issues-pure _))))

  Returns-patch_workload_entry_time : Returns (IsInHand api w) (patch_workload_entry_time api w)
  unfolding patch_workload_entry_time get_now_time
  Returns-patch_workload_entry_time = Returns-bind _ _ (λ time. Returns-bind _ _ (λ unix.
      Returns-bind_knowing _ _ (Returns-attempt-write _ _) (elim [
        | done stored ↦ λ (s, e). Returns-pure _ (inr (time, unix, inr (s, e)))
        | failed e ↦ λ h. Returns-pure _ (inr (time, unix, inl refl))
      ])))

  pub Returns-ensure :
      (b : Bool) → Returns (λ r. IsInHand api w r.1) (ensure_init_change_pod api w b)
  unfolding ensure_init_change_pod
  Returns-ensure b = Returns-bind _ _ (λ (exist, n).
      Returns-if exist _ _ (Returns-pure _ (inl refl)) (
        Returns-bind _ _ (λ necessary.
          Returns-if necessary _ _
            (Returns-bind _ _ (λ created.
              Returns-bind_knowing _ _ Returns-patch_workload_entry_time
                (λ patched h. Returns-pure _ h)))
            (Returns-pure _ (inl refl)))))
