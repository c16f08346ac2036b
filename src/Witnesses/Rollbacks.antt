-- ===== src/Witnesses/Rollbacks.antt =====
-- A round of the rollback loop, where a deployment whose pod is pending can be taken back.
use altershield_operator.Base.{String, List, [], ◌∷◌}
use altershield_operator.Base.Int.{ℤ, pos}
use altershield_operator.Base.Labels.{made}
use altershield_operator.Client.{Client}
use altershield_operator.Exec.{World}
use altershield_operator.Rollback.{roll_back_round}
use altershield_operator.Rollback.Exact.{roll_back_round-Tours}
use altershield_operator.Rollback.Tours.{Reaches, Tours, namespaces_of}
use altershield_operator.Types.{Deployment, OwnerReference, Pod, ReplicaSet}
use altershield_operator.Utils.Constants.{
  admission_webhook_version_label, deployment_kind, replica_set_kind,
}
use altershield_operator.Witnesses.Sample.{answers, plain_deployment, server, web_pod}

abbrev owned : String → String → List OwnerReference
owned kind name = record { kind = kind; name = name } ∷ []

abbrev replica_set : String → ℤ → ReplicaSet
replica_set name ready = record {
  namespace = "default";
  name = name;
  owner_references = owned deployment_kind "web";
  template_labels = made [];
  template_spec = name;
  replicas = pos 4;
  ready_replicas = ready;
  available_replicas = ready;
}

abbrev pending_pod : Pod
pending_pod = record web_pod {
  labels = made ((admission_webhook_version_label, "v2") ∷ []);
  owner_references = owned replica_set_kind "web-v2";
  phase = "Pending";
}

abbrev unhealthy : Deployment
unhealthy = record plain_deployment { replicas = pos 4; ready_replicas = pos 3 }

abbrev stuck_server : Client (Unit {0})
stuck_server = record (server {S = Unit {0}}) {
  list_pods = λ ns l. answers (pending_pod ∷ []);
  get_replica_set = λ key. answers (replica_set "web-v2" (pos 0));
  get_deployment = λ key. answers unhealthy;
  list_replica_sets =
      λ ns l. answers (replica_set "web-v2" (pos 0) ∷ replica_set "web-v1" (pos 4) ∷ []);
}

abbrev stuck_world : World (Unit {0})
stuck_world = record { server = tt; issued = [] }

roll_back_round-Tours_example :
    Reaches stuck_server
      (Tours stuck_server (namespaces_of stuck_server tt))
      stuck_world
      (roll_back_round stuck_server stuck_world)
roll_back_round-Tours_example = roll_back_round-Tours stuck_server stuck_world
