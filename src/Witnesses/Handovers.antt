-- ===== src/Witnesses/Handovers.antt =====
-- A server that stores one pod.
use altershield_operator.Base.{◌≡◌, refl, [], ◌∷◌, inl}
use altershield_operator.Base.Labels.{made, has_label}
use altershield_operator.Client.{Client}
use altershield_operator.Exec.{World, done}
use altershield_operator.PodController.{handle_create_event}
use altershield_operator.PodController.Handover.{IsKeeping, IsHandedOver, reconcile-IsHandedOver}
use altershield_operator.Predicates.{is_defensed, is_finished, is_has_version, is_running_pod}
use altershield_operator.Types.{Pod}
use altershield_operator.Utils.Constants.{admission_webhook_version_label}
use altershield_operator.Witnesses.Sample.{server, web_pod}

abbrev keeping : Client Pod
keeping = record (server {S = Pod}) {
  get_pod = λ key pod. (done pod, pod);
  update_pod = λ new pod. (done new, new);
}

abbrev Stores : Pod → Pod → Type 0
Stores pod s = s ≡ pod

keeping-IsKeeping : IsKeeping keeping Stores
keeping-IsKeeping = record {
  keeps_now = λ pod s p. p;
  gets = λ pod s p. (s, refl, (p, p));
  updates = λ pod l s p. (_, refl, refl);
}

-- A pod that runs and was given a version.
abbrev started : Pod
started = record web_pod { labels = made ((admission_webhook_version_label, "v1") ∷ []) }

abbrev pod_world : World Pod
pod_world = record { server = started; issued = [] }

reconcile-IsHandedOver_example : IsHandedOver keeping Stores keeping-IsKeeping started pod_world
unfolding handle_create_event is_defensed is_finished is_has_version is_running_pod has_label
reconcile-IsHandedOver_example =
    reconcile-IsHandedOver keeping Stores keeping-IsKeeping started pod_world (inl refl) refl refl
