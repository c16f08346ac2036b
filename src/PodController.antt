-- ===== src/PodController.antt =====
-- controllers/pod_controller.go: the controller that marks the pods of a versioned deployment as
-- finished once they run.
pub mod Marks
pub mod Handover
use altershield_operator.Base.{Bool, false, ◌&&◌, not, if◌then◌else◌}
use altershield_operator.Base.Labels.{set_label}
use altershield_operator.Calls.{update_pod}
use altershield_operator.Exec.{
  done, failed, Exec, pure, sample, ask, write, or_crash, attempt, ◌>>=◌, ignore_not_found,
}
use altershield_operator.Client.{Client}
use altershield_operator.Predicates.{is_finished, is_has_version, is_running_pod}
use altershield_operator.Types.{Pod, KubeObject, a_pod, NamespacedName}
use altershield_operator.Utils.Constants.{operate_finished_label}

-- `handleUpdateEvent`, from the old and the new object.
unfoldable pub handle_update_event : KubeObject → KubeObject → Bool
unfolding is_finished is_has_version is_running_pod
handle_update_event (a_pod old) (a_pod new) =
    if is_finished new
    then false
    else (is_running_pod new && not (is_running_pod old)) && is_has_version new
handle_update_event _ _ = false

-- `handleCreateEvent`
unfoldable pub handle_create_event : KubeObject → Bool
unfolding is_finished is_has_version is_running_pod
handle_create_event (a_pod pod) =
    if is_finished pod then false else is_running_pod pod && is_has_version pod
handle_create_event _ = false

module _ {S : Type 0} (api : Client S) where
  -- `markAsFinished`
  unfoldable pub mark_as_finished : Pod → Exec S (Unit {0})
  unfolding set_label
  mark_as_finished pod = do
    unix ← sample api.now
    labels ← or_crash (set_label operate_finished_label (api.format_int unix) pod.labels)
    let marked = record pod { labels = labels }
    stored ← write (update_pod marked) (api.update_pod marked)
    pure tt

  -- `Reconcile`
  unfoldable pub reconcile : NamespacedName → Exec S (Unit {0})
  unfolding mark_as_finished is_finished ignore_not_found
  reconcile key = do
    reply ← attempt (ask (api.get_pod key))
    elim reply [
      | failed e ↦ ignore_not_found e tt
      | done pod ↦ if is_finished pod then pure tt else mark_as_finished pod
    ]
