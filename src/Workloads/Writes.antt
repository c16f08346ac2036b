-- ===== src/Workloads/Writes.antt =====
-- What each handler of the change workload controller writes, and which workloads it deletes.
use altershield_operator.Base.{
  String, ◌≡◌, refl, Bool, true, false, List, [], ◌∷◌, inl, inr, not, keep, ◌⊎◌, ◌==◌, Option, none,
  some, Bool-cases, map,
}
use altershield_operator.Base.Labels.{label}
use altershield_operator.Calls.{Call, delete_workload}
use altershield_operator.Exec.{done, failed, pure, ◌>>=◌, World, ok, Reply-cases}
use altershield_operator.Exec.Issues.{
  Issues, Issues-bind, Issues-bind_knowing, Issues-if, Issues-pure, Issues-write, Issues-ask,
  Issues-attempt,
}
use altershield_operator.Client.{Client}
use altershield_operator.Types.{ChangePod, ChangeWorkload}
use altershield_operator.Types.State.{
  WorkloadState, init, running, success, failed, suspend, time_out_pre_threshold,
  other_workload_state,
}
use altershield_operator.Utils.Constants.{admission_webhook_version_label}
use altershield_operator.Workloads.Create.{ensure_init_change_pod}
use altershield_operator.Workloads.Sync.{sync_change_workload_status, update_status}
use altershield_operator.Workloads.Handlers.{
  delete_others, delete_old_of, delete_old_change_workload, init_handle, success_handle,
  running_handle, suspend_handle, after_wait_timeout, wait_timeout_handle, dispatch,
}
use altershield_operator.Workloads.Permissions.{Permitted, IsInHand, Issues-ensure, Returns-ensure}
use altershield_operator.Workloads.Synchronized.{Issues-update_status, Issues-sync}

module _ {S : Type 0} (api : Client S) (w : ChangeWorkload) where
  Issues-synced :
      (v : ChangeWorkload)
      → IsInHand api w v
      → Issues (Permitted api w) (sync_change_workload_status api v)
  Issues-synced v h = Issues-sync api v (λ before after e. e) (λ after j. (v, h, inr j))

  Issues-ensured :
      (b : Bool)
      → Issues
          (Permitted api w)
          (ensure_init_change_pod api w b >>= λ r. sync_change_workload_status api r.1)
  Issues-ensured b =
      Issues-bind_knowing _ _ (Issues-ensure api w b) (Returns-ensure api w b)
        (λ (created, v) h. Issues-synced v h)

  Issues-run :
      (v : ChangeWorkload)
      → IsInHand api w v
      → (w.status.status ≡ init) ⊎ (w.status.status ≡ time_out_pre_threshold)
      → Issues
          (Permitted api w)
          (update_status api (record v { status = record v.status { status = running } }))
  Issues-run v h e = Issues-update_status api _ (λ time unix. (v, h, inl (e, (time, unix, refl))))

  Issues-delete_others :
      w.status.status ≡ success
      → (ws : List ChangeWorkload) → Issues (Permitted api w) (delete_others api w.name ws)
  unfolding delete_others
  Issues-delete_others h [] = Issues-pure tt
  Issues-delete_others h (v ∷ ws) =
      Issues-if (v.name == w.name) _ _ (λ _. Issues-delete_others h ws)
        (λ e.
          Issues-bind _ _ (Issues-attempt _ (Issues-write _ _ (h, e)))
            (λ _. Issues-delete_others h ws))

  Issues-delete_old :
      w.status.status ≡ success → Issues (Permitted api w) (delete_old_change_workload api w)
  unfolding delete_old_change_workload delete_old_of
  Issues-delete_old h = Issues-bind _ _ (Issues-attempt _ (Issues-ask _)) (elim [
    | failed e ↦ Issues-pure tt
    | done d ↦
        Issues-if
          (label admission_webhook_version_label d.labels
            == label admission_webhook_version_label w.labels)
          _ _
          (λ _.
            Issues-bind _ _ (Issues-attempt _ (Issues-ask _))
              (elim [ failed e ↦ Issues-pure tt | done ws ↦ Issues-delete_others h ws ]))
          (λ _. Issues-pure tt)
  ])

  Issues-after_wait_timeout :
      (created : Option ChangePod) (v : ChangeWorkload)
      → IsInHand api w v
      → (w.status.status ≡ init) ⊎ (w.status.status ≡ time_out_pre_threshold)
      → Issues (Permitted api w) (after_wait_timeout api created v)
  unfolding after_wait_timeout
  Issues-after_wait_timeout none v h e = Issues-synced v h
  Issues-after_wait_timeout (some c) v h e = Issues-run v h e

  Issues-dispatch :
      (st : WorkloadState) → w.status.status ≡ st → Issues (Permitted api w) (dispatch api st w)
  unfolding dispatch init_handle success_handle running_handle suspend_handle wait_timeout_handle
  Issues-dispatch init h = Issues-run w (inl refl) (inl h)
  Issues-dispatch success h = Issues-bind _ _ (Issues-delete_old h) (λ _. Issues-ensured false)
  Issues-dispatch running h = Issues-ensured true
  Issues-dispatch suspend h = Issues-ensured false
  Issues-dispatch time_out_pre_threshold h =
      Issues-bind_knowing _ _ (Issues-ensure api w false) (Returns-ensure api w false)
        (λ (created, v) k. Issues-after_wait_timeout created v k (inr h))
  Issues-dispatch failed h = Issues-pure tt
  Issues-dispatch (other_workload_state s) h = Issues-pure tt

  -- Whatever the server answers, the handler of a workload's status writes only what the workload permits.
  -- New change pods are empty and initial and belong to it. A patch changes nothing of it but its entry
  -- times. A status is written of the workload in hand, which is the one given, that with the new entry times
  -- or the server's answer to their patch: as running, from the initial status or a timeout, with nothing
  -- else changed but the update times; or as a verdict, which changes nothing else but the two lists of
  -- checked pods and the update times, names no pod twice, is suspended where a pod failed, and else
  -- as before, or successful where as many pods passed as the deployment that the server gave has replicas
  -- and at least as many in a list that it gave are finished. A patch of a deployment is one that the
  -- validating webhook admits. Once it succeeded, workloads of another name are deleted.
  pub dispatch-Permitted : Issues (Permitted api w) (dispatch api w.status.status w)
  dispatch-Permitted = Issues-dispatch w.status.status refl

module _ {S : Type 0} (api : Client S) where
  -- The calls after the given ones, the last first.
  abbrev pub issue_all : List Call → List Call → List Call
  issue_all [] issued = issued
  issue_all (c ∷ cs) issued = issue_all cs (c ∷ issued)

  abbrev pub others : String → List ChangeWorkload → List ChangeWorkload
  others name ws = keep (λ v. not (v.name == name)) ws

  -- The loop deletes every workload of another name and no workload of this one, each once and in the
  -- order of the list, also when deletions fail, and ends without an error.
  pub delete_others_lem :
      (name : String) (ws : List ChangeWorkload) (s : World S)
      → let (o, s') = delete_others api name ws s in
        (o ≡ ok tt) × (s'.issued ≡ issue_all (map delete_workload (others name ws)) s.issued)
  unfolding delete_others ◌>>=◌ pure
  delete_others_lem name [] s = (refl, refl)
  delete_others_lem name (v ∷ ws) s = elim (Bool-cases (v.name == name)) [
    | inl e ↦ rw e (delete_others_lem name ws s)
    | inr e ↦
        let next : World S = record {
          server = (api.delete_workload v s.server).1;
          issued = delete_workload v ∷ s.issued;
        } in
        elim (Reply-cases (api.delete_workload v s.server).0) [
          | inl (x, h) ↦ rw (e, h) (delete_others_lem name ws next)
          | inr (x, h) ↦ rw (e, h) (delete_others_lem name ws next)
        ]
  ]
