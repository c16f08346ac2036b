-- ===== src/Workloads/Success.antt =====
-- When a release counts as successful.
use altershield_operator.Base.{◌≡◌, ◌≢◌, refl, sym, ◌∙◌, true, ◌⊎◌, inl, inr, length, is_nil}
use altershield_operator.Calls.{Call, patch_deployment, update_workload_status}
use altershield_operator.Client.{Client}
use altershield_operator.Exec.Issues.{Issues}
use altershield_operator.Types.{ChangeWorkload}
use altershield_operator.Types.State.{
  WorkloadState, init, running, success, failed, suspend, time_out_pre_threshold,
  other_workload_state,
}
use altershield_operator.Workloads.Outcomes.{IsVerdict, HasPassed}
use altershield_operator.Workloads.Synchronized.{Issues-sync}
use altershield_operator.Workloads.Sync.{sync_change_workload_status}

-- A status that is written is not successful, or no pod failed and either the workload was successful before
-- or every replica passed.
abbrev pub Succeeds : {S : Type 0} → Client S → ChangeWorkload → Call → Type 0
Succeeds api w (update_workload_status after) =
    (after.status.status ≢ success)
    ⊎ (is_nil after.status.defense_check_fail_pods ≡ true)
      × ((w.status.status ≡ success)
          ⊎ HasPassed api w (length after.status.defense_check_pass_pods))
Succeeds api w (patch_deployment before after) = Unit
Succeeds api w _ = ⊥

success-cases : (st : WorkloadState) → (st ≡ success) ⊎ (st ≢ success)
success-cases init = inr (λ e. cc)
success-cases running = inr (λ e. cc)
success-cases success = inl refl
success-cases failed = inr (λ e. cc)
success-cases suspend = inr (λ e. cc)
success-cases time_out_pre_threshold = inr (λ e. cc)
success-cases (other_workload_state s) = inr (λ e. cc)

differ : suspend ≢ success
differ e = cc

module _ {S : Type 0} (api : Client S) (w : ChangeWorkload) where
  Verdict-Succeeds :
      (after : ChangeWorkload)
      → IsVerdict api w after
      → Succeeds api w (update_workload_status after)
  Verdict-Succeeds after (same, pass, fail, inl (f, e)) = inl (λ h. differ (sym e ∙ h))
  Verdict-Succeeds after (same, pass, fail, inr (f, inr (e, h))) = inr (f, inr h)
  Verdict-Succeeds after (same, pass, fail, inr (f, inl e)) = elim (success-cases w.status.status) [
    | inl h ↦ inr (f, inl h)
    | inr n ↦ inl (λ h. n (sym e ∙ h))
  ]

  -- Whatever the server answers, the sync of a workload writes it as successful only where no pod failed and
  -- either it was successful before, or as many pods passed as a deployment that the server gave for its
  -- owner has replicas, and at least as many in a list of its version's pods that the server gave have the
  -- label of a finished pod.
  pub sync_change_workload_status-Succeeds :
      Issues (Succeeds api w) (sync_change_workload_status api w)
  sync_change_workload_status-Succeeds =
      Issues-sync api w (λ before after e. tt) (λ after j. Verdict-Succeeds after j)
