-- ===== src/Witnesses/Successes.antt =====
-- A server that stores one workload, and a release of one pod that passed.
use altershield_operator.Base.{◌≡◌, refl, ap, [], ◌∷◌, some, arith}
use altershield_operator.Base.Int.{pos}
use altershield_operator.Base.Labels.{has_label, insert}
use altershield_operator.Client.{Client}
use altershield_operator.Exec.{done}
use altershield_operator.Exec.Leads.{Leads}
use altershield_operator.Predicates.{filter_pod_without_finished_label, is_finished}
use altershield_operator.Types.{ChangePod, ChangeWorkload, ChangeWorkloadStatus, Deployment}
use altershield_operator.Types.State.{post_finish, execute_done, running, success}
use altershield_operator.Utils.Pods.{remove_duplicate_pod, is_pod_summary_slice_equal, appeared}
use altershield_operator.Witnesses.Sample.{
  summary, change_pod_in, workload_in, plain_deployment, server, answers, web_pod,
}
use altershield_operator.Workloads.Judged.{sync_change_workload_status-IsJudged}
use altershield_operator.Workloads.Keeping.{Release, IsKeeping, IsJudged}
use altershield_operator.Workloads.Query.{first_owner, executed_done_change_pods, pod_map}
use altershield_operator.Workloads.Sync.{collect, sync_change_workload_status}

abbrev owned : ChangeWorkload
owned = record (workload_in running "web-v1") {
  owner_references = (record { kind = "Deployment"; name = "web" }) ∷ [];
}

abbrev one_replica : Deployment
one_replica = record plain_deployment { spec_replicas = some (pos 1) }

-- A change pod that is done and whose one pod passed.
abbrev passed_batch : ChangePod
passed_batch = record (change_pod_in execute_done []) {
  status = record (change_pod_in execute_done []).status {
    message = post_finish;
    pod_results = summary "web-x--1" "pass" ∷ [];
  };
}

abbrev release : Release
release = record {
  change_pods = passed_batch ∷ [];
  pods = web_pod ∷ [];
  deployment = one_replica;
  replicas = 1;
}

abbrev with_status : ChangeWorkloadStatus → ChangeWorkload → ChangeWorkload
with_status status w = record w { status = status }

abbrev keeping : Client ChangeWorkload
keeping = record (server {S = ChangeWorkload}) {
  get_deployment = λ key. answers one_replica;
  list_change_pods_in = λ ns field value. answers (passed_batch ∷ []);
  update_workload_status = λ u w. (done (with_status u.status w), with_status u.status w);
}

abbrev Stores : ChangeWorkload → ChangeWorkload → Type 0
Stores w s = s ≡ w

keeping-IsKeeping : IsKeeping keeping Stores release
keeping-IsKeeping = record {
  keeps_now = λ w s p. p;
  keeps_now_text = λ w layout s p. p;
  lists_change_pods = λ w s p. (passed_batch ∷ [], refl, (refl, p));
  lists_pods = λ w s p. (web_pod ∷ [], refl, (refl, p));
  gets_deployment = λ w name e s p. (one_replica, refl, (refl, p));
  has_replicas = refl;
  patches_deployment = λ w before after s p. (after, refl, p);
  updates_status = λ w u s p. (with_status u.status s, refl, ap (with_status u.status) p);
}

sync_change_workload_status-IsJudged_example :
    Leads
      (Stores owned)
      (sync_change_workload_status keeping owned)
      (λ _ s. IsJudged Stores owned (summary "web-x--1" "pass" ∷ []) [] success s)
unfolding collect remove_duplicate_pod appeared filter_pod_without_finished_label is_finished
    has_label is_pod_summary_slice_equal first_owner executed_done_change_pods pod_map insert
sync_change_workload_status-IsJudged_example =
    sync_change_workload_status-IsJudged keeping Stores release keeping-IsKeeping owned "web" refl
      (omega arith, refl, refl, omega arith) refl
