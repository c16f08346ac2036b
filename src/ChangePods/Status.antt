-- ===== src/ChangePods/Status.antt =====
-- The setters of a change pod's status, and the write of it.
use altershield_operator.Base.{String}
use altershield_operator.Calls.{update_change_pod_status}
use altershield_operator.Exec.{Exec, pure, sample, write, ◌>>=◌}
use altershield_operator.Client.{Client}
use altershield_operator.Types.{ChangePod}
use altershield_operator.Types.State.{
  ChangePodState, pre_submitted, post_submitted, execute_done, pre_wait, pre_failed, post_failed,
}
use altershield_operator.Utils.Constants.{
  time_layout, change_pod_pre_timeout_threshold, change_pod_post_timeout_threshold,
}

module _ {S : Type 0} (api : Client S) where
  -- `utils.GetNowTime`
  unfoldable pub get_now_time : Exec S String
  get_now_time = sample (api.now_text time_layout)

  -- `setChangePodStatus`
  unfoldable pub set_change_pod_status : ChangePodState → ChangePod → Exec S ChangePod
  unfolding get_now_time
  set_change_pod_status status c = do
    time ← get_now_time
    unix ← sample api.now
    pure (record c {
      status = record c.status { status = status; update_time = time; update_time_unix = unix };
    })

  -- `setChangePodPreSubmittedStatus`
  unfoldable pub set_change_pod_pre_submitted_status : ChangePod → Exec S ChangePod
  unfolding set_change_pod_status get_now_time
  set_change_pod_pre_submitted_status change_pod = do
    c ← set_change_pod_status pre_submitted change_pod
    time ← get_now_time
    unix ← sample api.now
    pure (record c {
      status = record c.status {
        pre_timeout_threshold = change_pod_pre_timeout_threshold;
        pre_submit_time = time;
        pre_submit_time_unix = unix;
      };
    })

  -- `setChangePodPostSubmittedStatus`
  unfoldable pub set_change_pod_post_submitted_status : ChangePod → Exec S ChangePod
  unfolding set_change_pod_status get_now_time
  set_change_pod_post_submitted_status change_pod = do
    c ← set_change_pod_status post_submitted change_pod
    time ← get_now_time
    unix ← sample api.now
    pure (record c {
      status = record c.status {
        post_timeout_threshold = change_pod_post_timeout_threshold;
        post_submit_time = time;
        post_submit_time_unix = unix;
      };
    })

  -- `setChangePodDoneStatus`
  unfoldable pub set_change_pod_done_status : ChangePod → Exec S ChangePod
  unfolding set_change_pod_status
  set_change_pod_done_status c = set_change_pod_status execute_done c

  -- `setChangePodPreWaitStatus`
  unfoldable pub set_change_pod_pre_wait_status : ChangePod → Exec S ChangePod
  unfolding set_change_pod_status
  set_change_pod_pre_wait_status c = set_change_pod_status pre_wait c

  -- `setChangePodPreFailedStatus`
  unfoldable pub set_change_pod_pre_failed_status : ChangePod → Exec S ChangePod
  unfolding set_change_pod_status
  set_change_pod_pre_failed_status c = set_change_pod_status pre_failed c

  -- `setChangePodPostFailedStatus`
  unfoldable pub set_change_pod_post_failed_status : ChangePod → Exec S ChangePod
  unfolding set_change_pod_status
  set_change_pod_post_failed_status c = set_change_pod_status post_failed c

  -- `updateChangePodStatus`
  unfoldable pub update_status : ChangePod → Exec S (Unit {0})
  update_status c = do
    stored ← write (update_change_pod_status c) (api.update_change_pod_status c)
    pure tt
