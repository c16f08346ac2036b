-- ===== src/PodController/Handover.antt =====
-- The way of a pod from the pod controller to the controller of change workloads, which watches pods.
use mathlib.Core.Path.{subst}
use altershield_operator.Base.{
  String, ◌≡◌, refl, sym, ap, ◌∙◌, Bool, true, false, [], ◌∷◌, some, ◌⊎◌, inl, inr, if◌then◌else◌,
  arith,
}
use altershield_operator.Base.Labels.{
  Labels, nil, made, has_label, get_label?, set_label, get_label?-set_label,
}
use altershield_operator.Client.{Client}
use altershield_operator.Events.{
  watch_pod_event_handler, workload_handle_update_event, pod_handle_event,
}
use altershield_operator.Events.Routing.{find_workload-pod}
use altershield_operator.Exec.{ok, pure, World, ◌>>=◌}
use altershield_operator.Exec.Leads.{
  Answers, Leads, Leads-pure, Leads-sample, Leads-ask, Leads-write, Leads-if, Leads-or_crash,
  Leads-bind, Leads-known, Leads-some, Leads-attempt,
}
use altershield_operator.PodController.{
  handle_update_event, handle_create_event, mark_as_finished, reconcile,
}
use altershield_operator.PodController.Marks.{finished_after}
use altershield_operator.Predicates.{is_finished, is_defensed, is_has_version, is_preparing}
use altershield_operator.Types.{
  NamespacedName, Pod, KubeObject, a_pod, a_change_pod, a_workload, a_deployment, another,
}
use altershield_operator.Utils.Constants.{
  admission_webhook_version_label, defense_status_label, operate_finished_label,
}
use altershield_operator.Workloads.Reconcile.{find_workload, pod_reconcile}

abbrev key_of : Pod → NamespacedName
key_of pod = record { namespace = pod.namespace; name = pod.name }

-- `Is pod s` says that in the state `s` the server has the pod, and no one else writes it: an update of its
-- labels stores what it sends.
pub record IsKeeping {S : Type 0} (api : Client S) (Is : Pod → S → Type 0) : Type 0 where
  pub keeps_now : (pod : Pod) (s : S) → Is pod s → Is pod (api.now s).1
  pub gets : (pod : Pod) → Answers (Is pod) (api.get_pod (key_of pod)) (λ e s. (e ≡ pod) × Is pod s)
  pub updates :
      (pod : Pod) (l : Labels)
      → Answers
          (Is pod)
          (api.update_pod (record pod { labels = l }))
          (λ e s. Is (record pod { labels = l }) s)

-- The pod was created or updated, and the event passed the filter of the pod controller.
abbrev pub IsQueued : Pod → Type 0
IsQueued pod =
    (handle_create_event (a_pod pod) ≡ true)
    ⊎ ((old : KubeObject) × (handle_update_event old (a_pod pod) ≡ true))

apart : {x : Bool} → x ≡ true → x ≡ false → ⊥
apart p q = cc

-- What passes the filter is not finished and has a version.
is_new : (pod : Pod) → IsQueued pod → (is_finished pod ≡ false) × (is_has_version pod ≡ true)
unfolding handle_create_event handle_update_event
is_new pod (inl h) = (ground arith, ground arith)
is_new pod (inr (a_pod old, h)) = (ground arith, ground arith)
is_new pod (inr (a_change_pod c, h)) = absurd cc
is_new pod (inr (a_workload w, h)) = absurd cc
is_new pod (inr (a_deployment d, h)) = absurd cc
is_new pod (inr (another, h)) = absurd cc

-- A map that has a label is not nil, so it can be written.
written :
    (j k v : String) (labels : Labels)
    → has_label j labels ≡ true
    → (l : Labels) × (set_label k v labels ≡ some l)
unfolding has_label get_label? set_label
written j k v nil h = absurd cc
written j k v (made entries) h = (_, refl)

-- The pod, changed in its labels only: it has the mark, and nothing says that it is defensed.
abbrev pub IsMarked : Pod → Pod → Type 0
IsMarked pod e =
    (e ≡ record pod { labels = e.labels }) × (is_finished e ≡ true) × (is_defensed e.labels ≡ false)

module _ {S : Type 0} (api : Client S) (Is : Pod → S → Type 0) (keeping : IsKeeping api Is) where
  marked :
      (pod : Pod) (v : String) (l : Labels)
      → is_defensed pod.labels ≡ false
      → set_label operate_finished_label v pod.labels ≡ some l
      → IsMarked pod (record pod { labels = l })
  unfolding is_defensed has_label
  marked pod v l f h = (
    refl,
    finished_after api pod v h,
    rw
        (
          is_defensed,
          has_label,
          get_label?-set_label operate_finished_label v defense_status_label pod.labels h,
        )
        f,
  )

  Leads-mark :
      (pod : Pod)
      → is_defensed pod.labels ≡ false
      → is_has_version pod ≡ true
      → Leads (Is pod) (mark_as_finished api pod) (λ _ s. (e : Pod) × IsMarked pod e × Is e s)
  unfolding mark_as_finished is_has_version
  Leads-mark pod f has = Leads-bind _ _ (Leads-sample _ (keeping.keeps_now pod)) (λ unix.
      let (l, h) =
        written admission_webhook_version_label operate_finished_label (api.format_int unix)
          pod.labels has in
      Leads-bind {Q = λ m s. (m ≡ l) × Is pod s} _ _ (Leads-or_crash _ l h (λ s p. (refl, p))) (λ m.
        Leads-some {P = λ _ s. Is pod s} _ (λ k.
          Leads-bind _ _ (Leads-write _ _ (keeping.updates pod m))
            (λ stored. Leads-pure tt (λ s p. (_, marked pod _ m f (h ∙ ap some (sym k)), p))))))

  Leads-reconcile :
      (pod : Pod)
      → is_defensed pod.labels ≡ false
      → is_finished pod ≡ false
      → is_has_version pod ≡ true
      → Leads (Is pod) (reconcile api (key_of pod)) (λ _ s. (e : Pod) × IsMarked pod e × Is e s)
  unfolding reconcile
  Leads-reconcile pod f n has = Leads-attempt _ _ (Leads-ask _ (keeping.gets pod)) (λ e.
      Leads-known (λ x. if is_finished x then pure tt else mark_as_finished api x) e pod
        (Leads-if (is_finished pod) _ _ (λ t. absurd (apart t n)) (λ _. Leads-mark pod f has)))

  -- A pod that is finished is only read.
  reconcile_finished :
      (pod : Pod) (v : World S)
      → is_finished pod ≡ true
      → Is pod v.server
      → ((reconcile api (key_of pod) v).0 ≡ ok tt)
        × ((reconcile api (key_of pod) v).1.issued ≡ v.issued)
        × Is pod (reconcile api (key_of pod) v).1.server
  unfolding reconcile ◌>>=◌
  reconcile_finished pod v h p =
      let (e, found, (same, is)) = keeping.gets pod v.server p in
      rw (found, same, h) (refl, refl, is)

  -- What the events of the update make of the pod: the pod controller leaves it, and the controller of change
  -- workloads queues one request, of which it looks the pod up.
  abbrev pub IsPassedOn : Pod → Pod → Type 0
  IsPassedOn pod e =
      (handle_update_event (a_pod pod) (a_pod e) ≡ false)
      × (workload_handle_update_event (a_pod pod) (a_pod e) ≡ true)
      × ((request : NamespacedName) × (watch_pod_event_handler (a_pod e) ≡ request ∷ [])
          × (find_workload api request ≡ pod_reconcile api (key_of pod)))

  marked-IsPassedOn : (pod e : Pod) → IsMarked pod e → IsPassedOn pod e
  unfolding handle_update_event workload_handle_update_event watch_pod_event_handler
      pod_handle_event is_preparing
  marked-IsPassedOn pod e (same, fin, f) = (
    rw fin refl,
    rw (fin, f) refl,
    (_, rw (fin, f) refl, find_workload-pod api e ∙ ap (λ x. pod_reconcile api (key_of x)) same),
  )

  -- Two runs of the reconciler, and the world after each.
  abbrev pub IsHandedOver : Pod → World S → Type 0
  IsHandedOver pod v =
      let (first, v') = reconcile api (key_of pod) v in
      let (second, v'') = reconcile api (key_of pod) v' in
      (first ≡ ok tt)
      × (second ≡ ok tt)
      × (v''.issued ≡ v'.issued)
      × ((e : Pod) × IsMarked pod e × IsPassedOn pod e × Is e v''.server)

  -- A pod that runs is handed over to its workload. Against a server that keeps the pod, one whose event
  -- passed the filter of the pod controller and that is not defensed is marked as finished: the reconcile
  -- neither fails nor panics, and changes the labels only. The event of that update is not queued for the
  -- pod controller again; it passes the filter of the controller of change workloads and is queued there as
  -- one request, of which the reconciler looks up this pod. A second reconcile of the pod writes nothing.
  pub reconcile-IsHandedOver :
      (pod : Pod) (v : World S)
      → IsQueued pod
      → is_defensed pod.labels ≡ false
      → Is pod v.server
      → IsHandedOver pod v
  reconcile-IsHandedOver pod v queued f p =
      let (n, has) = is_new pod queued in
      let (u, ends, (e, m, is)) = (Leads-reconcile pod f n has).at v p in
      let v' = (reconcile api (key_of pod) v).1 in
      let (quick, quiet, kept) =
        subst
          (λ key.
            ((reconcile api key v').0 ≡ ok tt)
            × ((reconcile api key v').1.issued ≡ v'.issued)
            × Is e (reconcile api key v').1.server)
          (ap key_of m.0) (reconcile_finished e v' m.1 is) in
      (ends, quick, quiet, (e, m, marked-IsPassedOn pod e m, kept))
