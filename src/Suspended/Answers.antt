-- ===== src/Suspended/Answers.antt =====
-- What the query for suspended deployments reports.
use altershield_operator.Base.{String, ◌≡◌, true, false, List, [], ◌∷◌, ◌⊎◌, ◌==◌}
use altershield_operator.Client.{Client}
use altershield_operator.Types.{ReplicaSet, Deployment, OwnerReference}
use altershield_operator.Workloads.Query.{empty_replica_set}
use altershield_operator.Suspended.{SuspendDeployment}

abbrev pub IsFirstOwner : String → List OwnerReference → Type 0
IsFirstOwner name [] = ⊥
IsFirstOwner name (r ∷ rs) = (r.name == name) ≡ true

-- A replica set whose first owner has the name, or the empty one.
abbrev pub IsOwned : String → ReplicaSet → Type 0
IsOwned name rs = (rs ≡ empty_replica_set) ⊎ IsFirstOwner name rs.owner_references

abbrev pub IsReport : Deployment → SuspendDeployment → Type 0
IsReport d found =
    (found.deployment_name ≡ d.name)
    × (found.namespace ≡ d.namespace)
    × IsOwned d.name found.now_replica_set
    × IsOwned d.name found.success_replica_set
    × (found.has_success_version ≡ false
        → (found.success_version ≡ "") × (found.success_replica_set ≡ empty_replica_set))
