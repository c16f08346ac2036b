-- ===== src/Callback.antt =====
-- controllers/callback/nodecallbak_handle.go: the answer of the publishing service to a submitted
-- change pod, before and after the change.
pub mod Effects
use altershield_operator.Base.{String, ℕ, not, List, [], ◌∷◌, if◌then◌else◌, ◌==◌, map}
use altershield_operator.Base.Int.{pos}
use altershield_operator.Base.Labels.{nil}
use altershield_operator.Calls.{respond, patch_change_pod_status}
use altershield_operator.Exec.{
  Reply, done, failed, Exec, pure, sample, ask, write, attempt, ◌>>=◌, ◌>>◌,
}
use altershield_operator.Client.{Client}
use altershield_operator.Types.{ChangePod, PodSummary}
use altershield_operator.Types.Opscloud.{CallbackWrapperRequest, CallbackRequest, CheckVerdict}
use altershield_operator.Types.State.{
  execute_init, post_wait, post_finish, is_pre_submitted, is_post_submitted,
}
use altershield_operator.ChangePods.Status.{get_now_time}
use altershield_operator.Utils.Constants.{change_pod_field_change_pod_id}

abbrev pub check_type_batch : String
check_type_batch = "CHANGE_BATCH"

abbrev pub defense_stage_pre : String
defense_stage_pre = "PRE"

abbrev pub defense_stage_post : String
defense_stage_post = "POST"

-- `v1alpha1.ChangePod{}`
abbrev pub empty_change_pod : ChangePod
empty_change_pod = record {
  namespace = "";
  name = "";
  labels = nil;
  spec = record {
    pod_infos = [];
    create_time = "";
    create_time_unix = pos 0;
    change_workload_id = "";
  };
  status = record {
    status = execute_init;
    update_time = "";
    update_time_unix = pos 0;
    pod_results = [];
    message = execute_init;
    change_pod_id = "";
    pre_submit_time = "";
    pre_submit_time_unix = pos 0;
    post_submit_time = "";
    post_submit_time_unix = pos 0;
    pre_timeout_threshold = pos 0;
    post_timeout_threshold = pos 0;
  };
}

-- One round of the loop that writes the verdict into the results.
unfoldable pub with_verdict : CheckVerdict → PodSummary → PodSummary
with_verdict v p = record p { verdict = v.verdict; message = v.msg }

-- The change pod after the loop: `PodResults` is the slice `PodInfos`, so the verdict is written into
-- both.
unfoldable pub judged : CheckVerdict → ChangePod → ChangePod
unfolding with_verdict
judged v c =
    let infos = map (with_verdict v) c.spec.pod_infos in
    record c {
      spec = record c.spec { pod_infos = infos };
      status = record c.status { status = post_finish; pod_results = infos };
    }

module _ {S : Type 0} (api : Client S) where
  -- `c.JSON(code, …)`
  unfoldable pub json : ℕ → Exec S (Unit {0})
  json code = write (respond code) (λ s. (done tt, s))

  -- The update times, and the patch of the status; the answer tells whether it failed.
  unfoldable pub patch_status : ChangePod → ChangePod → Exec S (Reply ChangePod)
  unfolding get_now_time
  patch_status before changed = do
    time ← get_now_time api
    unix ← sample api.now
    let stamped = record changed {
      status = record changed.status { update_time = time; update_time_unix = unix };
    }
    attempt (
        write (patch_change_pod_status before stamped) (api.patch_change_pod_status before stamped))

  -- The branch of the stage before the change.
  unfoldable pub pre_stage : ChangePod → Exec S (Unit {0})
  unfolding patch_status json
  pre_stage c =
      if is_pre_submitted c.status.status
      then (do
        reply ← patch_status c (record c { status = record c.status { status = post_wait } })
        elim reply [ failed e ↦ json 500 | done stored ↦ json 200 ])
      else json 200

  -- The branch of the stage after it: a patch that succeeds is not answered.
  unfoldable pub post_stage : CheckVerdict → ChangePod → Exec S (Unit {0})
  unfolding patch_status json judged
  post_stage v c =
      if is_post_submitted c.status.status
      then (do
        reply ← patch_status c (judged v c)
        elim reply [ failed e ↦ json 500 | done stored ↦ pure tt ])
      else json 200

  -- The two stages.
  unfoldable pub stage : CallbackRequest → ChangePod → Exec S (Unit {0})
  unfolding pre_stage post_stage
  stage r c =
      if r.defense_stage_enum == defense_stage_pre
      then pre_stage c
      else if r.defense_stage_enum == defense_stage_post
      then post_stage r.verdict c
      else pure tt

  -- The first change pod that was found; where there is none, the handler answers and goes on with an
  -- empty one.
  unfoldable pub first_found : List ChangePod → Exec S ChangePod
  unfolding json
  first_found [] = do json 200; pure empty_change_pod
  first_found (c ∷ cs) = pure c

  -- The part of `CheckCallBackHandler` after the change pods were listed.
  unfoldable pub with_listed : CallbackRequest → List ChangePod → Exec S (Unit {0})
  unfolding first_found stage
  with_listed r cs = do c ← first_found cs; stage r c

  -- `CheckCallBackHandler`, from the bound request: an error of the list is not answered.
  unfoldable pub check_callback_handler : Reply CallbackWrapperRequest → Exec S (Unit {0})
  unfolding json with_listed
  check_callback_handler (failed e) = json 400
  check_callback_handler (done r) =
      if not (r.change_check_type == check_type_batch) then pure tt else do
        reply ←
            attempt
              (ask (api.list_change_pods change_pod_field_change_pod_id r.callback_request.node_id))
        elim reply [ failed e ↦ pure tt | done cs ↦ with_listed r.callback_request cs ]
