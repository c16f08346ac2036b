-- ===== src/Rollback/Effects.antt =====
-- What a round of the rollback loop writes.
use mathlib.Core.Path.{subst}
use altershield_operator.Base.{
  String, ◌≡◌, refl, Bool, true, false, ◌&&◌, not, List, [], ◌∷◌, Option, none, some, ◌==◌,
  Bool-cases, inl, inr, if◌then◌else◌, length, ltb,
}
use altershield_operator.Calls.{Call, update_deployment}
use altershield_operator.Exec.Issues.{
  Issues, Returns, Issues-bind, Issues-bind_knowing, Issues-if, Issues-pure, Issues-write,
  Issues-ask, Issues-sample, Issues-attempt, Returns-bind, Returns-pure,
}
use altershield_operator.Client.{Client}
use altershield_operator.Types.{Pod, ReplicaSet, Deployment}
use altershield_operator.Timeouts.{listed}
use altershield_operator.Base.Labels.{has_label}
use altershield_operator.Utils.Constants.{admission_webhook_version_label}
use altershield_operator.Utils.Pods.{MapOf}
use altershield_operator.Workloads.Query.{empty_replica_set}
use altershield_operator.Rollback.{
  check_deployment_status, is_normal, first_normal, rolled_back, pod_status_running,
  pod_status_terminating, is_old, is_stuck, put_pods, get_non_running_pods,
  get_all_webhook_namespace, replica_set_named, get_pod_owns_replica_set, deployment_named,
  get_replica_set_owns_deployment, get_normal_replica_set, roll_back, check_deployment, check_pod,
  check_pods, check_namespaces, roll_back_round,
}

-- The update of a deployment that is not healthy to the template of another replica set than the one
-- of the pod, which has replicas that are all ready and available.
abbrev pub IsRollback : Call → Type 0
IsRollback (update_deployment after) =
    (d : Deployment) × (owns : ReplicaSet) × (rs : ReplicaSet) × (check_deployment_status d ≡ false)
    × (is_normal owns.name rs ≡ true)
    × (after ≡ rolled_back d rs)
IsRollback _ = ⊥

-- A replica set without a name passes for none.
first_normal-is_normal :
    (name : String) (sets : List ReplicaSet)
    → ((first_normal name sets).name == "") ≡ false
    → is_normal name (first_normal name sets) ≡ true
unfolding first_normal
first_normal-is_normal name [] h = absurd cc
first_normal-is_normal name (rs ∷ rest) h = elim (Bool-cases (is_normal name rs)) [
  | inl e ↦ rw e e
  | inr e ↦ rw e (
      first_normal-is_normal name rest
        (subst (λ b. ((if b then rs else first_normal name rest).name == "") ≡ false) e h))
]

named_is_normal :
    (b : Bool) (name : String) (rs : ReplicaSet)
    → ((rs.name == "") ≡ false → is_normal name rs ≡ true)
    → ((if b then rs else empty_replica_set).name == "") ≡ false
    → is_normal name (if b then rs else empty_replica_set) ≡ true
named_is_normal true name rs h e = h e
named_is_normal false name rs h e = absurd cc

module _ {S : Type 0} (api : Client S) where
  Returns-get_normal :
      (d : Deployment) (owns : ReplicaSet)
      → Returns
          (λ rs. (rs.name == "") ≡ false → is_normal owns.name rs ≡ true)
          (get_normal_replica_set api d owns)
  unfolding get_normal_replica_set
  Returns-get_normal d owns = Returns-bind _ _ (λ reply. Returns-pure _ (
      named_is_normal (ltb 1 (length (listed reply))) owns.name
        (first_normal owns.name (listed reply)) (first_normal-is_normal owns.name (listed reply))))

  Issues-check_deployment :
      (d : Deployment) (owns : ReplicaSet) → Issues IsRollback (check_deployment api d owns)
  unfolding check_deployment roll_back get_normal_replica_set
  Issues-check_deployment d owns =
      Issues-if (d.name == "") _ _ (λ _. Issues-pure true)
        (λ _.
          Issues-if (check_deployment_status d) _ _ (λ _. Issues-pure false)
            (λ sick.
              Issues-bind_knowing _ _
                (Issues-bind _ _ (Issues-attempt _ (Issues-ask _)) (λ _. Issues-pure _))
                (Returns-get_normal d owns)
                (λ rs normal.
                  Issues-if (rs.name == "") _ _ (λ _. Issues-pure false)
                    (λ e.
                      Issues-bind _ _
                        (Issues-attempt _ (Issues-write _ _ (d, owns, rs, sick, normal e, refl)))
                        (λ _. Issues-pure true)))))

  Issues-replica_set_named :
      (ns : String) (o : Option String) → Issues IsRollback (replica_set_named api ns o)
  unfolding replica_set_named
  Issues-replica_set_named ns none = Issues-pure _
  Issues-replica_set_named ns (some name) =
      Issues-bind _ _ (Issues-attempt _ (Issues-ask _)) (λ _. Issues-pure _)

  Issues-deployment_named :
      (ns : String) (o : Option String) → Issues IsRollback (deployment_named api ns o)
  unfolding deployment_named
  Issues-deployment_named ns none = Issues-pure _
  Issues-deployment_named ns (some name) =
      Issues-bind _ _ (Issues-attempt _ (Issues-ask _)) (λ _. Issues-pure _)

  Issues-check_pods : (pods : List Pod) → Issues IsRollback (check_pods api pods)
  unfolding check_pods check_pod get_pod_owns_replica_set get_replica_set_owns_deployment
  Issues-check_pods [] = Issues-pure true
  Issues-check_pods (pod ∷ pods) =
      Issues-bind _ _
        (Issues-bind _ _ (Issues-replica_set_named _ _) (λ owns.
          Issues-if (owns.name == "") _ _ (λ _. Issues-pure true)
            (λ _.
              Issues-bind _ _ (Issues-deployment_named _ _) (λ d. Issues-check_deployment d owns))))
        (λ more. Issues-if more _ _ (λ _. Issues-check_pods pods) (λ _. Issues-pure false))

  Issues-is_old : (start : Option _) → Issues IsRollback (is_old api start)
  unfolding is_old
  Issues-is_old none = Issues-pure false
  Issues-is_old (some start) = Issues-sample _

  Issues-is_stuck : (pod : Pod) → Issues IsRollback (is_stuck api pod)
  unfolding is_stuck
  Issues-is_stuck pod =
      Issues-if (not (has_label admission_webhook_version_label pod.labels)) _ _
        (λ _. Issues-pure false)
        (λ _.
          Issues-if
            (not (pod.phase == pod_status_running) && not (pod.phase == pod_status_terminating)) _ _
            (λ _. Issues-is_old pod.start_time) (λ _. Issues-pure false))

  Issues-put_pods : (pods : List Pod) (m : MapOf Pod) → Issues IsRollback (put_pods api m pods)
  unfolding put_pods
  Issues-put_pods [] m = Issues-pure m
  Issues-put_pods (pod ∷ pods) m =
      Issues-bind _ _ (Issues-is_stuck pod) (λ stuck. Issues-put_pods pods _)

  Issues-check_namespaces : (names : List String) → Issues IsRollback (check_namespaces api names)
  unfolding check_namespaces get_non_running_pods
  Issues-check_namespaces [] = Issues-pure true
  Issues-check_namespaces (ns ∷ rest) =
      Issues-bind _ _
        (Issues-bind _ _ (Issues-attempt _ (Issues-ask _))
          (λ reply. Issues-bind _ _ (Issues-put_pods (listed reply) []) (λ m. Issues-sample _)))
        (λ pods.
          Issues-bind _ _ (Issues-check_pods pods) (λ more.
            Issues-if more _ _ (λ _. Issues-check_namespaces rest) (λ _. Issues-pure false)))

  -- Whatever the server and the clock answer, a round of the rollback loop writes nothing but updates
  -- of deployments whose four counts of replicas are not equal, to the template of a replica set with
  -- another name than the pod's, which has replicas, all of them ready and available; the update
  -- changes nothing but the template.
  pub roll_back_round-IsRollback : Issues IsRollback (roll_back_round api)
  unfolding roll_back_round get_all_webhook_namespace
  roll_back_round-IsRollback =
      Issues-bind _ _ (Issues-bind _ _ (Issues-attempt _ (Issues-ask _)) (λ reply. Issues-pure _))
        (λ names. Issues-check_namespaces names)
