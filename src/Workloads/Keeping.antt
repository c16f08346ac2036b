-- ===== src/Workloads/Keeping.antt =====
-- A server that keeps a workload and what belongs to its release.
use altershield_operator.Base.{ℕ, String, ◌≡◌, ◌≤◌, ◌<◌, true, List, [], ◌∷◌, some, length, is_nil}
use altershield_operator.Base.Int.{pos}
use altershield_operator.Base.Labels.{label}
use altershield_operator.Client.{Client}
use altershield_operator.Exec.Leads.{Answers}
use altershield_operator.Predicates.{filter_pod_without_finished_label}
use altershield_operator.Types.{
  ChangePod, ChangeWorkload, ChangeWorkloadStatus, Deployment, Pod, PodSummary,
}
use altershield_operator.Types.State.{WorkloadState}
use altershield_operator.Utils.Constants.{
  admission_webhook_version_label, change_pod_field_change_workload_id, deployment_kind,
}
use altershield_operator.Workloads.Query.{first_owner, executed_done_change_pods, pod_map}
use altershield_operator.Workloads.Synced.{pass_pods, fail_pods}

-- What the server has for the release of a workload: its change pods, the pods of its version and the
-- deployment that owns it, with as many replicas.
pub record Release : Type 0 where
  pub change_pods : List ChangePod
  pub pods : List Pod
  pub deployment : Deployment
  pub replicas : ℕ

-- `Is w s` says that in the state `s` the server has the workload `w`, and no one else writes it. A read
-- answers with what the release has, and a write of the status stores it.
pub record IsKeeping {S : Type 0} (api : Client S) (Is : ChangeWorkload → S → Type 0) (r : Release)
    : Type 0 where
  pub keeps_now : (w : ChangeWorkload) (s : S) → Is w s → Is w (api.now s).1
  pub keeps_now_text :
      (w : ChangeWorkload) (layout : String) (s : S) → Is w s → Is w (api.now_text layout s).1
  pub lists_change_pods :
      (w : ChangeWorkload)
      → Answers
          (Is w)
          (api.list_change_pods_in w.namespace change_pod_field_change_workload_id w.name)
          (λ cs s. (cs ≡ r.change_pods) × Is w s)
  pub lists_pods :
      (w : ChangeWorkload)
      → Answers
          (Is w)
          (api.list_pods w.namespace (
            (admission_webhook_version_label, label admission_webhook_version_label w.labels) ∷ []))
          (λ pods s. (pods ≡ r.pods) × Is w s)
  pub gets_deployment :
      (w : ChangeWorkload) (name : String)
      → first_owner deployment_kind w.owner_references ≡ some name
      → Answers
          (Is w)
          (api.get_deployment (record { namespace = w.namespace; name = name }))
          (λ d s. (d ≡ r.deployment) × Is w s)
  pub has_replicas : r.deployment.spec_replicas ≡ some (pos r.replicas)
  pub patches_deployment :
      (w : ChangeWorkload) (before after : Deployment)
      → Answers (Is w) (api.patch_deployment before after) (λ d s. Is w s)
  pub updates_status :
      (w u : ChangeWorkload)
      → Answers
          (Is w)
          (api.update_workload_status (record w { status = u.status }))
          (λ e s. Is (record w { status = u.status }) s)

-- The pods of the release that passed and that failed, and those that are finished.
abbrev pub passes_of : Release → List PodSummary
passes_of r = pass_pods (executed_done_change_pods r.change_pods) (pod_map [] r.pods)

abbrev pub fails_of : Release → List PodSummary
fails_of r = fail_pods (executed_done_change_pods r.change_pods) (pod_map [] r.pods)

abbrev pub finished_of : Release → List Pod
finished_of r = filter_pod_without_finished_label r.pods

-- The workload with the two lists in memory.
abbrev pub checked : ChangeWorkload → List PodSummary → List PodSummary → ChangeWorkload
checked w pass fail = record w {
  status = record w.status { defense_check_pass_pods = pass; defense_check_fail_pods = fail };
}

-- The server has the workload with these lists and this status.
abbrev pub IsJudged :
    {S : Type 0}
    → (ChangeWorkload → S → Type 0)
    → ChangeWorkload
    → List PodSummary
    → List PodSummary
    → WorkloadState
    → S
    → Type 0
IsJudged Is w pass fail st s =
    (u : ChangeWorkloadStatus) × ((u.status ≡ st)
      × (u.defense_check_pass_pods ≡ pass)
      × (u.defense_check_fail_pods ≡ fail))
    × Is (record w { status = u }) s

-- Every replica passed: as many pods as the deployment has replicas, which are not none, passed, none failed,
-- and at least as many are finished.
abbrev pub IsPassed : Release → Type 0
IsPassed r =
    (0 < r.replicas)
    × (length (passes_of r) ≡ r.replicas)
    × (is_nil (fails_of r) ≡ true)
    × (r.replicas ≤ length (finished_of r))
