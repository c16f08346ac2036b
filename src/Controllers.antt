-- ===== src/Controllers.antt =====
-- `SetupWithManager` of the five controllers (controllers/deployment_controller.go, pod_controller.go,
-- opsconfiginfo_controller.go, changeworkload_controller.go, changepod_controller.go) and the indexes
-- that two of them set first: what each controller is registered with.
use altershield_operator.Base.{String, ℕ, Bool, List, [], ◌∷◌, Option, none, some}
use altershield_operator.Base.Labels.{Labels, nil}
use altershield_operator.Deployments.{handle_event}
use altershield_operator.Events.{
  change_pod_handle_object, watch_pod_event_handler, watch_change_pod_event_handler,
  workload_handle_update_event, workload_handle_create_event,
}
use altershield_operator.Exec.{Reply, done, failed}
use altershield_operator.PodController.{handle_update_event, handle_create_event}
use altershield_operator.Types.{
  NamespacedName, KubeObject, a_pod, a_change_pod, a_workload, a_deployment, another,
}
use altershield_operator.Types.State.{change_pod_text, workload_text}
use altershield_operator.Utils.Constants.{
  change_pod_field_status, change_pod_field_change_pod_id, change_pod_field_change_workload_id,
  change_workload_field_status,
}

pub data Kind : Type 0 where
  pods deployments change_pods change_workloads ops_config_infos : Kind

-- An indexed field and the values that an object has for it.
abbrev pub Index : Type 0
Index = String × (KubeObject → List String)

-- The index of change pods by their status.
unfoldable pub status_of_change_pod : KubeObject → List String
status_of_change_pod (a_change_pod c) = change_pod_text c.status.status ∷ []
status_of_change_pod _ = []

-- The index of change pods by the node of the publishing service.
unfoldable pub change_pod_id_of : KubeObject → List String
change_pod_id_of (a_change_pod c) = c.status.change_pod_id ∷ []
change_pod_id_of _ = []

-- The index of change pods by their workload.
unfoldable pub change_workload_id_of : KubeObject → List String
change_workload_id_of (a_change_pod c) = c.spec.change_workload_id ∷ []
change_workload_id_of _ = []

-- The index of workloads by their status.
unfoldable pub status_of_workload : KubeObject → List String
status_of_workload (a_workload w) = workload_text w.status.status ∷ []
status_of_workload _ = []

abbrev pub change_pod_indexes : List Index
change_pod_indexes =
    (change_pod_field_status, status_of_change_pod)
    ∷ (change_pod_field_change_pod_id, change_pod_id_of)
    ∷ (change_pod_field_change_workload_id, change_workload_id_of)
    ∷ []

abbrev pub change_workload_indexes : List Index
change_workload_indexes = (change_workload_field_status, status_of_workload) ∷ []

-- The indexes are set in order, and the first error is returned: `setChangePodFieldIndex` and
-- `setChangeWorkloadFieldIndex`, with `IndexField` given.
unfoldable pub set_field_index :
    {S : Type 0} → (Index → S → Reply (Unit {0}) × S) → List Index → S → Reply (Unit {0}) × S
set_field_index index_field [] s = (done tt, s)
set_field_index index_field (i ∷ is) s =
    let rest = set_field_index index_field is (index_field i s).1 in
    elim (index_field i s).0 [ failed e ↦ (failed e, (index_field i s).1) | done x ↦ rest ]

-- `GetLabels` of an object of an event; a type that the operator does not name has none here.
unfoldable pub labels_of : KubeObject → Labels
labels_of (a_pod p) = p.labels
labels_of (a_change_pod c) = c.labels
labels_of (a_workload w) = w.labels
labels_of (a_deployment d) = d.labels
labels_of another = nil

-- `handleUpdateEvent` and `handleCreateEvent` of the deployment controller, from the new object. They
-- see the events of the workloads that a deployment owns as well.
unfoldable pub deployment_handle_object : KubeObject → Bool
unfolding labels_of handle_event
deployment_handle_object o = handle_event (labels_of o)

-- A registration: the kind reconciled, the kinds owned, the kinds watched with the requests that their
-- events become, the number of concurrent reconciles and the two filters.
pub record Registration : Type 0 where
  pub reconciles : Kind
  pub owns : List Kind
  pub watches : List (Kind × (KubeObject → List NamespacedName))
  pub max_concurrent_reconciles : Option ℕ
  pub update_filter : Option (KubeObject → KubeObject → Bool)
  pub create_filter : Option (KubeObject → Bool)

unfoldable pub deployment_controller : Registration
unfolding deployment_handle_object
deployment_controller = record {
  reconciles = deployments;
  owns = change_workloads ∷ [];
  watches = [];
  max_concurrent_reconciles = some 5;
  update_filter = some (λ old new. deployment_handle_object new);
  create_filter = some deployment_handle_object;
}

unfoldable pub pod_controller : Registration
unfolding handle_update_event handle_create_event
pod_controller = record {
  reconciles = pods;
  owns = [];
  watches = [];
  max_concurrent_reconciles = some 5;
  update_filter = some handle_update_event;
  create_filter = some handle_create_event;
}

unfoldable pub ops_config_info_controller : Registration
ops_config_info_controller = record {
  reconciles = ops_config_infos;
  owns = [];
  watches = [];
  max_concurrent_reconciles = none;
  update_filter = none;
  create_filter = none;
}

unfoldable pub change_workload_controller : Registration
unfolding watch_pod_event_handler watch_change_pod_event_handler workload_handle_update_event
    workload_handle_create_event
change_workload_controller = record {
  reconciles = change_workloads;
  owns = [];
  watches = (pods, watch_pod_event_handler) ∷ (change_pods, watch_change_pod_event_handler) ∷ [];
  max_concurrent_reconciles = some 5;
  update_filter = some workload_handle_update_event;
  create_filter = some workload_handle_create_event;
}

unfoldable pub change_pod_controller : Registration
unfolding change_pod_handle_object
change_pod_controller = record {
  reconciles = change_pods;
  owns = [];
  watches = [];
  max_concurrent_reconciles = some 20;
  update_filter = some (λ old new. change_pod_handle_object new);
  create_filter = some change_pod_handle_object;
}
