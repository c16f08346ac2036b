-- ===== src/Events.antt =====
-- The event filters and watch handlers of the controllers: which events are queued, and as what.
pub mod Coverage
pub mod Routing
use altershield_operator.Base.{Bool, true, false, ◌&&◌, ◌||◌, not, List, [], ◌∷◌, if◌then◌else◌}
use altershield_operator.Predicates.{is_preparing}
use altershield_operator.Types.{
  Pod, ChangePod, ChangeWorkload, NamespacedName, KubeObject, a_pod, a_change_pod, a_workload,
}
use altershield_operator.Types.State.{
  is_execute_init, is_execute_done, is_pre_wait, is_init, is_failed,
}
use altershield_operator.Utils.Names.{
  get_pod_namespace_name_from_pod, get_change_pod_namespace_name_from_change_pod,
}

-- changepod_controller.go

-- `handleEvent`
unfoldable pub change_pod_handle_event : ChangePod → Bool
change_pod_handle_event c = not (is_execute_done c.status.status)

-- `handleUpdateEvent` and `handleCreateEvent`, from the new object
unfoldable pub change_pod_handle_object : KubeObject → Bool
unfolding change_pod_handle_event
change_pod_handle_object (a_change_pod c) = change_pod_handle_event c
change_pod_handle_object _ = false

-- changeworkload_pod_control.go and changeworkload_changepod_control.go

-- `watchPodEventHandler`
unfoldable pub watch_pod_event_handler : KubeObject → List NamespacedName
unfolding is_preparing get_pod_namespace_name_from_pod
watch_pod_event_handler (a_pod pod) =
    if is_preparing pod then get_pod_namespace_name_from_pod pod ∷ [] else []
watch_pod_event_handler _ = []

-- `podHandleEvent`
unfoldable pub pod_handle_event : Pod → Bool
unfolding is_preparing
pod_handle_event pod = is_preparing pod

-- `watchChangePodEventHandler`
unfoldable pub watch_change_pod_event_handler : KubeObject → List NamespacedName
unfolding get_change_pod_namespace_name_from_change_pod
watch_change_pod_event_handler (a_change_pod c) =
    if is_execute_init c.status.status
    then []
    else get_change_pod_namespace_name_from_change_pod c ∷ []
watch_change_pod_event_handler _ = []

-- `changePodCreateHandleEvent`
unfoldable pub change_pod_create_handle_event : ChangePod → Bool
change_pod_create_handle_event c = is_execute_done c.status.status

-- `changePodUpdateHandleEvent`
unfoldable pub change_pod_update_handle_event : ChangePod → ChangePod → Bool
change_pod_update_handle_event old new =
    if is_execute_init old.status.status && is_pre_wait new.status.status
    then true
    else is_execute_done new.status.status

-- changeworkload_controller.go

-- `changeWorkloadHandleEvent`
unfoldable pub change_workload_handle_event : ChangeWorkload → Bool
change_workload_handle_event w =
    if is_init w.status.status || is_failed w.status.status then false else true

-- `handleUpdateEvent`, from the old and the new object, which are of one kind
unfoldable pub workload_handle_update_event : KubeObject → KubeObject → Bool
unfolding pod_handle_event change_pod_update_handle_event change_workload_handle_event
workload_handle_update_event old (a_pod pod) = pod_handle_event pod
workload_handle_update_event (a_change_pod old) (a_change_pod new) =
    change_pod_update_handle_event old new
workload_handle_update_event old (a_workload w) = change_workload_handle_event w
workload_handle_update_event _ _ = false

-- `handleCreateEvent`
unfoldable pub workload_handle_create_event : KubeObject → Bool
unfolding pod_handle_event change_pod_create_handle_event change_workload_handle_event
workload_handle_create_event (a_pod pod) = pod_handle_event pod
workload_handle_create_event (a_change_pod c) = change_pod_create_handle_event c
workload_handle_create_event (a_workload w) = change_workload_handle_event w
workload_handle_create_event _ = false
