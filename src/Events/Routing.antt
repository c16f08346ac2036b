-- ===== src/Events/Routing.antt =====
-- What the reconciler of change workloads makes of the requests that its watch handlers queue.
use altershield_operator.Base.{
  ◌≡◌, refl, Bool, true, false, not, List, [], ◌∷◌, ◌⊎◌, inl, inr, Bool-cases,
}
use altershield_operator.Exec.{Exec}
use altershield_operator.Client.{Client}
use altershield_operator.Predicates.{is_preparing}
use altershield_operator.Types.{Pod, ChangePod, NamespacedName, a_pod, a_change_pod}
use altershield_operator.Types.State.{is_execute_init}
use altershield_operator.Utils.Names.{
  get_pod_namespace_name_from_pod, get_change_pod_namespace_name_from_change_pod,
  pod_request_round_trip, change_pod_request_round_trip,
}
use altershield_operator.Workloads.Reconcile.{find_workload, pod_reconcile, change_pod_reconcile}
use altershield_operator.Events.{watch_pod_event_handler, watch_change_pod_event_handler}

module _ {S : Type 0} (api : Client S) where
  -- Nothing is queued where the test fails, and otherwise one request, which finds its workload by `look`.
  abbrev pub IsRouted :
      {A : Type 0} → Bool → List NamespacedName → Exec S A → (NamespacedName → Exec S A) → Type 0
  IsRouted test queued look find =
      ((test ≡ false) × (queued ≡ []))
      ⊎ ((key : NamespacedName) × (test ≡ true) × (queued ≡ key ∷ []) × (find key ≡ look))

  pub find_workload-pod :
      (pod : Pod)
      → find_workload api (get_pod_namespace_name_from_pod pod)
        ≡ pod_reconcile api (record { namespace = pod.namespace; name = pod.name })
  unfolding find_workload
  find_workload-pod pod = let (e, f, g) = pod_request_round_trip pod in rw (f, e) refl

  find_workload-change_pod :
      (c : ChangePod)
      → find_workload api (get_change_pod_namespace_name_from_change_pod c)
        ≡ change_pod_reconcile api (record { namespace = c.namespace; name = c.name })
  unfolding find_workload
  find_workload-change_pod c = let (e, f, g) = change_pod_request_round_trip c in rw (g, f, e) refl

  -- The reconciler understands what the watch handlers queue: a pod is queued exactly where it is finished
  -- and not yet defensed, a change pod exactly where it is not in the initial status, each as one request;
  -- and the reconciler, whatever the object's name holds, finds the workload of that request by the object's
  -- own namespace and name, a pod's by its owners and a change pod's by the workload that it names.
  pub watch_handlers-AreRouted :
      (pod : Pod) (c : ChangePod)
      → IsRouted
          (is_preparing pod)
          (watch_pod_event_handler (a_pod pod))
          (pod_reconcile api (record { namespace = pod.namespace; name = pod.name }))
          (find_workload api)
        × IsRouted
            (not (is_execute_init c.status.status))
            (watch_change_pod_event_handler (a_change_pod c))
            (change_pod_reconcile api (record { namespace = c.namespace; name = c.name }))
            (find_workload api)
  unfolding watch_pod_event_handler watch_change_pod_event_handler
  watch_handlers-AreRouted pod c = (
    elim (Bool-cases (is_preparing pod)) [
      | inl t ↦ inr (_, t, rw t refl, find_workload-pod pod)
      | inr f ↦ inl (f, rw f refl)
    ],
    elim (Bool-cases (is_execute_init c.status.status)) [
      | inl t ↦ inl (rw t refl, rw t refl)
      | inr f ↦ inr (_, rw f refl, rw f refl, find_workload-change_pod c)
    ],
  )
