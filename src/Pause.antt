-- ===== src/Pause.antt =====
-- runnable/run_deployment_status_pause.go: one round of a loop that pauses one deployment. main.go does
-- not start it.
use altershield_operator.Base.{true}
use altershield_operator.Calls.{update_deployment}
use altershield_operator.Client.{Client}
use altershield_operator.Exec.{Reply, done, failed, Exec, pure, ask, write, attempt, ◌>>=◌}
use altershield_operator.Types.{Deployment}

module _ {S : Type 0} (api : Client S) where
  -- What is done with the deployment that was read; every error is only logged.
  unfoldable pub paused_by : Reply Deployment → Exec S (Unit {0})
  paused_by (failed e) = pure tt
  paused_by (done d) = do
    let pausing = record d { paused = true }
    reply ← attempt (write (update_deployment pausing) (api.update_deployment pausing))
    pure tt

  -- One round of `DeploymentStatusPauseRun`
  unfoldable pub pause_round : Exec S (Unit {0})
  unfolding paused_by
  pause_round = do
    reply ← attempt (ask (api.get_deployment (record { namespace = "default"; name = "sleep" })))
    paused_by reply
