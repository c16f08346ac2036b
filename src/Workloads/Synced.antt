-- ===== src/Workloads/Synced.antt =====
-- What a sync makes of a workload one of whose pods failed.
use mathlib.Core.Path.{subst}
use altershield_operator.Base.{◌≡◌, refl, sym, ap, ◌∙◌, false, List, [], ◌∷◌, is_nil}
use altershield_operator.Client.{Client}
use altershield_operator.Exec.{ok, World, continue, ask, pure, Reply, done, failed, answer, ◌>>=◌}
use altershield_operator.Types.{ChangePod, ChangeWorkload, Pod, PodSummary}
use altershield_operator.Utils.Pods.{MapOf, remove_duplicate_pod}
use altershield_operator.Workloads.Query.{
  get_finished_change_pods_by_workload, get_all_pod_map_by_workload,
  get_all_change_pods_by_workload, get_all_pods_by_version,
}
use altershield_operator.Workloads.Sync.{update_checked_pods, collect, sync_change_workload_status}
use altershield_operator.Workloads.Failure.{IsSynced, update_checked_pods-IsSuspended}

-- A call that reads, whose answer is only passed on, adds no call.
read_issued :
    {S A B : Type 0} (f : S → Reply A × S) (g : A → B) (w : World S)
    → ((ask f >>= λ x. pure (g x)) w).1.issued ≡ w.issued
unfolding ◌>>=◌ pure
read_issued f g w = go (f w.server).0
  where
    go :
        (x : Reply _)
        → (continue (answer x) (λ y. pure (g y)) (record w { server = (f w.server).1 })).1.issued
          ≡ w.issued
    go (done y) = refl
    go (failed e) = refl

-- The pods that the finished change pods count as passed and as failed, each once, of those that are there.
abbrev pub pass_pods : List ChangePod → MapOf Pod → List PodSummary
pass_pods change_pods pods = remove_duplicate_pod (collect [] [] change_pods).0 pods

abbrev pub fail_pods : List ChangePod → MapOf Pod → List PodSummary
fail_pods change_pods pods = remove_duplicate_pod (collect [] [] change_pods).1 pods

some_listed :
    (change_pods : List ChangePod) (pods : MapOf Pod)
    → is_nil (fail_pods change_pods pods) ≡ false
    → is_nil change_pods ≡ false
unfolding remove_duplicate_pod collect
some_listed [] pods h = absurd cc
some_listed (c ∷ cs) pods h = refl

module _ {S : Type 0} (api : Client S) (w : ChangeWorkload) (v : World S) where
  -- The world after the change pods were read, and that after the pods were.
  abbrev pub listed : World S
  listed = (get_finished_change_pods_by_workload api w v).1

  abbrev pub mapped : World S
  mapped = (get_all_pod_map_by_workload api w listed).1

  mapped_issued : mapped.issued ≡ v.issued
  unfolding get_finished_change_pods_by_workload get_all_change_pods_by_workload
      get_all_pod_map_by_workload get_all_pods_by_version
  mapped_issued = read_issued _ _ listed ∙ read_issued _ _ v

  sync_run :
      (change_pods : List ChangePod) (pods : MapOf Pod)
      → (get_finished_change_pods_by_workload api w v).0 ≡ ok change_pods
      → (get_all_pod_map_by_workload api w listed).0 ≡ ok pods
      → is_nil change_pods ≡ false
      → sync_change_workload_status api w v
        ≡ update_checked_pods api w (pass_pods change_pods pods) (fail_pods change_pods pods) mapped
  unfolding sync_change_workload_status ◌>>=◌
  sync_run change_pods pods e f h = rw (e, f, h) refl

  -- Where the finished change pods and the pods were read, a pod that is there failed by the verdicts of those
  -- change pods, and the sync of the workload ends without an error: both lists of checked pods were
  -- unchanged and nothing was written, or the last write is the workload as suspended, with the pods that
  -- passed and those that failed, each once.
  pub sync_change_workload_status-IsSuspended :
      (change_pods : List ChangePod) (pods : MapOf Pod) (a : Unit {0})
      → (get_finished_change_pods_by_workload api w v).0 ≡ ok change_pods
      → (get_all_pod_map_by_workload api w listed).0 ≡ ok pods
      → is_nil (fail_pods change_pods pods) ≡ false
      → (sync_change_workload_status api w v).0 ≡ ok a
      → IsSynced w
          (pass_pods change_pods pods)
          (fail_pods change_pods pods)
          v.issued
          (sync_change_workload_status api w v).1.issued
  sync_change_workload_status-IsSuspended change_pods pods a e f h ends =
      let run = sync_run change_pods pods e f (some_listed change_pods pods h) in
      let passes = pass_pods change_pods pods in
      let fails = fail_pods change_pods pods in
      let synced : IsSynced w passes fails mapped.issued
          (update_checked_pods api w passes fails mapped).1.issued =
        update_checked_pods-IsSuspended api w passes fails mapped a h
          (ap (λ r. r.0) (sym run) ∙ ends) in
      subst (λ calls. IsSynced w passes fails calls (sync_change_workload_status api w v).1.issued)
        mapped_issued
        (subst (λ r. IsSynced w passes fails mapped.issued r.1.issued) (sym run) synced)
