-- ===== src/Witnesses/Batches.antt =====
-- A server that stores one change pod and a service that accepts, and the course of a batch against them.
use altershield_operator.Base.{String, ◌≡◌, refl, ap, true, ◌≤◌, arith, [], ◌∷◌, some}
use altershield_operator.Client.{Client}
use altershield_operator.Base.Int.{sub64}
use altershield_operator.Callback.{post_stage}
use altershield_operator.Exec.{done, ◌>>=◌}
use altershield_operator.Lifecycle.{Step}
use altershield_operator.Lifecycle.Races.{times_out, post_stage_reopens}
use altershield_operator.Timeouts.{is_over}
use altershield_operator.Exec.Leads.{Leads}
use altershield_operator.Base.Labels.{has_label, lookup}
use altershield_operator.Callback.{check_type_batch}
use altershield_operator.ChangePods.Notify.{node_id_of}
use altershield_operator.Base.Int.{pos}
use altershield_operator.ChangePods.Batches.{FillsWithin}
use altershield_operator.ChangePods.Reconcile.{execute_init_handle}
use altershield_operator.Deployments.Threshold.{Makes, new_change_workload-Limits}
use altershield_operator.Exec.Issues.{Issues}
use altershield_operator.Lifecycle.Server.{IsServing, Has}
use altershield_operator.Predicates.{is_preparing, filter_pod_without_finished_or_defensed_label}
use altershield_operator.Types.{ChangePod, ChangePodSpec, ChangePodStatus, ChangeWorkload}
use altershield_operator.Types.Opscloud.{
  OpsCloudResult, CheckVerdict, CallbackWrapperRequest, object,
}
use altershield_operator.Types.State.{
  execute_init, running, post_submitted, post_finish, execute_done,
}
use altershield_operator.Witnesses.Sample.{
  summary, server, answers, change_pod_in, workload_in, web_pod, api, world, plain_deployment,
}

abbrev accepted : OpsCloudResult
accepted = record {
  success = true;
  result_code = "";
  msg = "";
  domain = object (("nodeId", some "node") ∷ []);
}

abbrev with_spec : ChangePodSpec → ChangePod → ChangePod
with_spec spec c = record c { spec = spec }

abbrev with_status : ChangePodStatus → ChangePod → ChangePod
with_status status c = record c { status = status }

abbrev storing : Client ChangePod
storing = record (server {S = ChangePod}) {
  get_change_pod = λ key c. (done c, c);
  list_change_pods = λ field value c. (done (c ∷ []), c);
  update_change_pod = λ d c. (done (with_spec d.spec c), with_spec d.spec c);
  update_change_pod_status = λ d c. (done (with_status d.status c), with_status d.status c);
  patch_change_pod_status = λ b d c. (done (with_status d.status c), with_status d.status c);
  http_do = λ uri headers body. answers "200 OK";
  unmarshal = λ text. done accepted;
}

abbrev Stores : ChangePod → ChangePod → Type 0
Stores c s = s ≡ c

storing-IsServing : IsServing storing "node" Stores
unfolding filter_pod_without_finished_or_defensed_label is_preparing has_label node_id_of lookup
storing-IsServing = record {
  keeps_now = λ c s p. p;
  keeps_now_text = λ c layout s p. p;
  gets = λ c s p. (s, refl, (p, p));
  lists = λ c i s p. (s ∷ [], refl, (ap (λ (x : ChangePod). x ∷ []) p, p));
  updates =
      λ c d s p. (with_spec d.spec s, refl, (ap (with_spec d.spec) p, ap (with_spec d.spec) p));
  updates_status = λ c d s p.
      (with_status d.status s, refl, (ap (with_status d.status) p, ap (with_status d.status) p));
  patches_status = λ c d s p.
      (with_status d.status s, refl, (ap (with_status d.status) p, ap (with_status d.status) p));
  has_workload = λ c s p. (workload_in running "web-v1", refl, ((1, refl), p));
  has_pods = λ c labels e s p. (web_pod ∷ [], refl, (refl, p));
  patches_pod = λ c before after s p. (after, refl, p);
  is_reached = λ c uri headers body s p. ("200 OK", refl, p);
  is_accepted = λ c resp s p. ("", refl, ((accepted, refl, refl, refl), p));
}

abbrev callback_at : String → CallbackWrapperRequest
callback_at at = record {
  change_check_type = check_type_batch;
  callback_request = record {
    node_id = "node";
    change_scene_key = "";
    biz_exec_order_id = "web-v1";
    verdict = record { verdict = "pass"; msg = "good"; node_id = "node" };
    defense_stage_enum = at;
  };
}

abbrev fresh : ChangePod
fresh = change_pod_in execute_init []

new_change_workload-Limits_example :
    (w : ChangeWorkload) × Makes api plain_deployment world (pos 2) w
    × (2 ≤ 4)
    × ((c : ChangePod) → Issues (FillsWithin api 2 c) (execute_init_handle api c w))
new_change_workload-Limits_example =
    new_change_workload-Limits api plain_deployment world 4 50 (omega arith) (omega arith)
      (refl, refl) refl

-- Submitted at 100 with 60 seconds, where the clock always says 1000.
abbrev late : ChangePod
late = change_pod_in post_submitted (summary "web-x--1" "" ∷ [])

abbrev pass : CheckVerdict
pass = record { verdict = "pass"; msg = "good"; node_id = "node" }

post_stage_reopens_example :
    Leads
      (Stores late)
      (times_out storing "node" Stores storing-IsServing late)
      (λ _ s. Has Stores late (λ u. u.status ≡ execute_done) s)
    × Leads
        (Stores late)
        (times_out storing "node" Stores storing-IsServing late >>= λ _.
          post_stage storing pass late)
        (λ _ s. (e : ChangePod) × (e.status.status ≡ post_finish) × Stores e s)
    × ¬ (Step execute_done post_finish)
unfolding is_over sub64
post_stage_reopens_example =
    post_stage_reopens storing "node" Stores storing-IsServing late pass
      (λ stored before after n s p. (with_status after.status s, refl, (refl, refl))) refl
      (λ s. refl)
