-- ===== src/Rollback/Tours.antt =====
-- The course of a round of the rollback loop: what it does with each pod, and when it is the last one.
use altershield_operator.Base.{
  String, ◌≡◌, Bool, true, false, List, [], ◌∷◌, Option, none, some, ◌==◌, length, All, Any, ◌⊎◌,
  ◌<◌, ◌≤◌,
}
use altershield_operator.Base.Labels.{entries_of}
use altershield_operator.Calls.{Call, update_deployment}
use altershield_operator.Client.{Client}
use altershield_operator.Exec.{Outcome, ok, World}
use altershield_operator.Rollback.{enabled, or_else, get_non_running_pods}
use altershield_operator.Rollback.Choice.{IsHealthy, IsOther, IsTakenBack}
use altershield_operator.Timeouts.{listed}
use altershield_operator.Types.{Deployment, Pod, ReplicaSet}
use altershield_operator.Utils.Constants.{
  admission_webhook_namespace_label, deployment_kind, replica_set_kind,
}
use altershield_operator.Workloads.Query.{first_owner, empty_deployment, empty_replica_set}

module _ {S : Type 0} (api : Client S) where
  -- What the server has in a state: the replica set that owns a pod, and the deployment that owns a replica
  -- set. What is not there is an empty one.
  abbrev pub replica_set_of : String → Option String → S → ReplicaSet
  replica_set_of ns none s = empty_replica_set
  replica_set_of ns (some name) s =
      or_else empty_replica_set (api.get_replica_set (record { namespace = ns; name = name }) s).0

  abbrev pub owner_of : Pod → S → ReplicaSet
  owner_of pod s =
      replica_set_of pod.namespace (first_owner replica_set_kind pod.owner_references) s

  abbrev pub deployment_in : String → Option String → S → Deployment
  deployment_in ns none s = empty_deployment
  deployment_in ns (some name) s =
      or_else empty_deployment (api.get_deployment (record { namespace = ns; name = name }) s).0

  abbrev pub deployment_of : ReplicaSet → S → Deployment
  deployment_of rs s =
      deployment_in rs.namespace (first_owner deployment_kind rs.owner_references) s

  -- The replica sets of the deployment's selector; none where the list fails.
  abbrev pub sets_of : Deployment → S → List ReplicaSet
  sets_of d s = listed (api.list_replica_sets d.namespace (entries_of d.match_labels) s).0

  -- The server lists more than one replica set, and this one among them, which is another than that of the
  -- pod and runs.
  abbrev pub HasOther : Deployment → ReplicaSet → ReplicaSet → Type 0
  HasOther d owns rs =
      (s : S) × (1 < length (sets_of d s)) × Any (λ x. (x ≡ rs) × IsOther owns x) (sets_of d s)

  -- The server lists at most one replica set, or none that is another and runs, or such a one without a name.
  abbrev pub HasNoOther : Deployment → ReplicaSet → Type 0
  HasNoOther d owns =
      (s : S) × ((length (sets_of d s) ≤ 1)
        ⊎ All (λ rs. ¬ (IsOther owns rs)) (sets_of d s)
        ⊎ Any (λ rs. ((rs.name == "") ≡ true) × IsOther owns rs) (sets_of d s))

  -- What the round does with a deployment whose pod does not run, from the calls issued before to those
  -- after, and whether it goes on. It passes by one that is not found. It ends at one that is healthy, and at
  -- one without another replica set that runs. Any other is updated to the template of that replica set.
  pub data Settled (d : Deployment) (owns : ReplicaSet) (before after : List Call) (more : Bool)
      : Type 0 where
    not_found :
        (d.name == "") ≡ true → after ≡ before → more ≡ true → Settled d owns before after more
    healthy :
        (d.name == "") ≡ false
        → IsHealthy d
        → after ≡ before
        → more ≡ false
        → Settled d owns before after more
    stranded :
        (d.name == "") ≡ false
        → ¬ (IsHealthy d)
        → HasNoOther d owns
        → after ≡ before
        → more ≡ false
        → Settled d owns before after more
    taken_back :
        (d.name == "") ≡ false
        → ¬ (IsHealthy d)
        → (rs : ReplicaSet) → HasOther d owns rs
        → (e : Deployment) → IsTakenBack d rs e
        → after ≡ update_deployment e ∷ before
        → more ≡ true
        → Settled d owns before after more

  -- What it does with a pod: it passes by one whose replica set is not found.
  pub data Visit (pod : Pod) (before after : List Call) (more : Bool) : Type 0 where
    without_owner :
        (s : S)
        → ((owner_of pod s).name == "") ≡ true
        → after ≡ before
        → more ≡ true
        → Visit pod before after more
    with_owner :
        (s t : S)
        → ((owner_of pod s).name == "") ≡ false
        → Settled (deployment_of (owner_of pod s) t) (owner_of pod s) before after more
        → Visit pod before after more

  -- The pods in order, up to one at which the round ends.
  pub data Visits : List Pod → List Call → List Call → Bool → Type 0 where
    no_pods : {before : List Call} → Visits [] before before true
    last_pod :
        {pod : Pod} {pods : List Pod} {before after : List Call}
        → Visit pod before after false
        → Visits (pod ∷ pods) before after false
    next_pod :
        {pod : Pod} {pods : List Pod} {before middle after : List Call} {more : Bool}
        → Visit pod before middle true
        → Visits pods middle after more
        → Visits (pod ∷ pods) before after more

  -- The pods of a namespace that were found not to run.
  abbrev pub AreFound : String → List Pod → Type 0
  AreFound ns pods = (w : World S) × ((get_non_running_pods api ns w).0 ≡ ok pods)

  -- The namespaces in order, up to one at which the round ends.
  pub data Tours : List String → List Call → List Call → Bool → Type 0 where
    no_namespaces : {before : List Call} → Tours [] before before true
    last_namespace :
        {ns : String} {rest : List String} {pods : List Pod} {before after : List Call}
        → AreFound ns pods
        → Visits pods before after false
        → Tours (ns ∷ rest) before after false
    next_namespace :
        {ns : String} {rest : List String} {pods : List Pod} {before middle after : List Call}
        {more : Bool}
        → AreFound ns pods
        → Visits pods before middle true
        → Tours rest middle after more
        → Tours (ns ∷ rest) before after more

  -- What the server lists as namespaces that the webhook is in charge of; none where the list fails.
  abbrev pub namespaces_of : S → List String
  namespaces_of s =
      listed (api.list_namespaces ((admission_webhook_namespace_label, enabled) ∷ []) s).0

  -- The action ends with a value, and the calls before and after and the value are related.
  abbrev pub Reaches :
      {A : Type 0} → (List Call → List Call → A → Type 0) → World S → Outcome A × World S → Type 0
  Reaches {A} R w (o, v) = (a : A) × (o ≡ ok a) × R w.issued v.issued a
