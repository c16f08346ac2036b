-- ===== src/Rollback/Exact.antt =====
-- What a round of the rollback loop does with each pod, and when it is the last one.
use mathlib.Core.Path.{subst}
use altershield_operator.Base.{
  String, ◌≡◌, refl, ap, ◌∙◌, true, false, List, [], ◌∷◌, ◌==◌, if◌then◌else◌, Bool-cases, inl, inr,
}
use altershield_operator.Calls.{update_deployment}
use altershield_operator.Client.{Client}
use altershield_operator.Exec.{Reply-cases, Outcome, ok, World, pure, ◌>>=◌}
use altershield_operator.Rollback.{
  enabled, check_deployment_status, rolled_back, get_non_running_pods, get_all_webhook_namespace,
  get_pod_owns_replica_set, get_replica_set_owns_deployment, get_normal_replica_set, roll_back,
  check_deployment, check_pod, check_pods, check_namespaces, roll_back_round,
}
use altershield_operator.Rollback.Choice.{
  check_deployment_status-IsHealthy, check_deployment_status-unhealthy, rolled_back-IsTakenBack,
}
use altershield_operator.Timeouts.{listed}
use altershield_operator.Types.{Deployment, Pod, ReplicaSet}
use altershield_operator.Utils.Constants.{admission_webhook_namespace_label}
use altershield_operator.Rollback.Tours.{
  owner_of, deployment_of, Settled, not_found, healthy, stranded, taken_back, Visit, without_owner,
  with_owner, Visits, no_pods, last_pod, next_pod, Tours, no_namespaces, last_namespace,
  next_namespace, namespaces_of, Reaches,
}
use altershield_operator.Rollback.Reads.{
  other_of, other_of-HasOther, other_of-HasNoOther, then_lem, read_lem, owner_of-IsReading,
  deployment_of-IsReading, other_of-IsReading, IsQuiet-get_non_running_pods,
}

module _ {S : Type 0} (api : Client S) where
  logged :
      (d : Deployment) (rs : ReplicaSet) (w : World S)
      → ((roll_back api d rs w).0 ≡ ok true)
        × ((roll_back api d rs w).1.issued ≡ update_deployment (rolled_back d rs) ∷ w.issued)
  unfolding roll_back ◌>>=◌
  logged d rs w = elim (Reply-cases (api.update_deployment (rolled_back d rs) w.server).0) [
    | inl (a, e) ↦ (rw e refl, rw e refl)
    | inr (x, e) ↦ (rw e refl, rw e refl)
  ]

  check_deployment-Settled :
      (d : Deployment) (owns : ReplicaSet) (w : World S)
      → Reaches api (Settled api d owns) w (check_deployment api d owns w)
  unfolding check_deployment pure
  check_deployment-Settled d owns w = elim (Bool-cases (d.name == "")) [
    | inl e ↦ (true, rw e refl, not_found e (rw e refl) refl)
    | inr e ↦ elim (Bool-cases (check_deployment_status d)) [
      | inl k ↦ (
        false,
        rw (e, k) refl,
        healthy e (check_deployment_status-IsHealthy d k) (rw (e, k) refl) refl,
      )
      | inr k ↦
          let unhealthy = check_deployment_status-unhealthy d k in
          let (s, found, quiet) = other_of-IsReading api d owns w in
          let go =
            then_lem api (get_normal_replica_set api d owns)
              (λ rs. if rs.name == "" then pure false else roll_back api d rs) w found in
          elim (Bool-cases ((other_of api d owns s).name == "")) [
            | inl m ↦ (
              false,
              rw (e, k, go, m) refl,
              stranded e unhealthy (other_of-HasNoOther api d owns s m) (rw (e, k, go, m) quiet)
                  refl,
            )
            | inr m ↦
                let (ends, issued) =
                  logged d (other_of api d owns s) (get_normal_replica_set api d owns w).1 in
                (
                  true,
                  rw (e, k, go, m) ends,
                  taken_back e unhealthy _ (other_of-HasOther api d owns s m) _
                      (rolled_back-IsTakenBack d (other_of api d owns s))
                      (rw (e, k, go, m)
                        (issued
                          ∙ ap (λ l. update_deployment (rolled_back d (other_of api d owns s)) ∷ l)
                              quiet))
                      refl,
                )
          ]
    ]
  ]

  check_pod-Visit : (pod : Pod) (w : World S) → Reaches api (Visit api pod) w (check_pod api pod w)
  unfolding check_pod pure
  check_pod-Visit pod w =
      let (s, found, quiet) = owner_of-IsReading api pod w in
      let owns = owner_of api pod s in
      let v = (get_pod_owns_replica_set api pod w).1 in
      let go =
        then_lem api (get_pod_owns_replica_set api pod)
          (λ rs.
            if rs.name == ""
            then pure true
            else do d ← get_replica_set_owns_deployment api rs; check_deployment api d rs)
          w found in
      elim (Bool-cases (owns.name == "")) [
        | inl e ↦ (true, rw (go, e) refl, without_owner s e (rw (go, e) quiet) refl)
        | inr e ↦
            let (t, found', quiet') = deployment_of-IsReading api owns v in
            let go' =
              then_lem api (get_replica_set_owns_deployment api owns)
                (λ d. check_deployment api d owns) v found' in
            let u = (get_replica_set_owns_deployment api owns v).1 in
            let (more, ends, settled) =
              check_deployment-Settled (deployment_of api owns t) owns u in
            (
              more,
              rw (go, e, go') ends,
              with_owner s t e (
                  rw (go, e, go')
                    (subst
                      (λ l.
                        Settled api (deployment_of api owns t) owns l
                          (check_deployment api (deployment_of api owns t) owns u).1.issued more)
                      (quiet' ∙ quiet) settled)),
            )
      ]

  check_pods-Visits :
      (pods : List Pod) (w : World S) → Reaches api (Visits api pods) w (check_pods api pods w)
  unfolding check_pods pure
  check_pods-Visits [] w = (true, refl, no_pods)
  check_pods-Visits (pod ∷ pods) w =
      let (more, ends, visit) = check_pod-Visit pod w in
      let go =
        then_lem api (check_pod api pod) (λ more. if more then check_pods api pods else pure false)
          w ends in
      elim (Bool-cases more) [
        | inl e ↦
            let (b, ends', visits) = check_pods-Visits pods (check_pod api pod w).1 in
            (b, rw (go, e) ends', rw (go, e) (next_pod (subst (Visit api pod _ _) e visit) visits))
        | inr e ↦
            (false, rw (go, e) refl, rw (go, e) (last_pod (subst (Visit api pod _ _) e visit)))
      ]

  check_namespaces-Tours :
      (names : List String) (w : World S)
      → Reaches api (Tours api names) w (check_namespaces api names w)
  unfolding check_namespaces pure
  check_namespaces-Tours [] w = (true, refl, no_namespaces)
  check_namespaces-Tours (ns ∷ rest) w =
      let (pods, found, same) = IsQuiet-get_non_running_pods api ns w in
      let v = (get_non_running_pods api ns w).1 in
      let (more, ends, visits) = check_pods-Visits pods v in
      let go =
        then_lem api (get_non_running_pods api ns)
          (λ pods. do
            more ← check_pods api pods
            if more then check_namespaces api rest else pure false)
          w found in
      let go' =
        then_lem api (check_pods api pods)
          (λ more. if more then check_namespaces api rest else pure false) v ends in
      elim (Bool-cases more) [
        | inl e ↦
            let (b, ends', tours) = check_namespaces-Tours rest (check_pods api pods v).1 in
            (
              b,
              rw (go, go', e) ends',
              rw (go, go', e)
                  (next_namespace (w, found)
                    (subst (λ l. Visits api pods l (check_pods api pods v).1.issued true) same
                      (subst (Visits api pods _ _) e visits))
                    tours),
            )
        | inr e ↦ (
          false,
          rw (go, go', e) refl,
          rw (go, go', e)
              (last_namespace (w, found)
                (subst (λ l. Visits api pods l (check_pods api pods v).1.issued false) same
                  (subst (Visits api pods _ _) e visits))),
        )
      ]

  -- A round of the rollback loop reaches its end whatever the server and the clock answer, also where a read
  -- or an update fails. It goes through the namespaces of the webhook and in each through the pods that
  -- getNonRunningPods returns, both in the order given. A pod whose replica set or deployment is not found is
  -- passed by. At the first deployment whose four counts of replicas are equal, and at the first for which
  -- the server lists at most one replica set or no other one with replicas that are all ready and available,
  -- or such a one without a name, the round ends and is the last one. Any other deployment is updated to the
  -- template of such another replica set without the hash label, and nothing else of it changes; and nothing
  -- else is written.
  pub roll_back_round-Tours :
      (w : World S) → Reaches api (Tours api (namespaces_of api w.server)) w (roll_back_round api w)
  unfolding roll_back_round get_all_webhook_namespace
  roll_back_round-Tours w =
      let e =
        read_lem api (api.list_namespaces ((admission_webhook_namespace_label, enabled) ∷ []))
          listed w in
      let same = ap (λ (r : Outcome _ × World S). r.1.issued) e in
      let names = namespaces_of api w.server in
      let go =
        then_lem api (get_all_webhook_namespace api) (check_namespaces api) w (ap (λ r. r.0) e) in
      let (b, ends, tours) = check_namespaces-Tours names (get_all_webhook_namespace api w).1 in
      (
        b,
        rw go ends,
        rw go (
            subst
              (λ l.
                Tours api names l
                  (check_namespaces api names (get_all_webhook_namespace api w).1).1.issued b)
              same tours),
      )
