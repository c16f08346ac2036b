-- ===== src/Routes/Queries.antt =====
-- What the query for suspended deployments may write.

use altershield_operator.Base.{String, ℕ, List, [], ◌∷◌, Option, none, some}
use altershield_operator.Callback.{json}
use altershield_operator.Calls.{Call, respond}
use altershield_operator.Client.{Client}
use altershield_operator.Exec.{Reply, done, failed}
use altershield_operator.Exec.Issues.{
  Issues, Issues-bind, Issues-if, Issues-pure, Issues-write, issues_rules,
}
use altershield_operator.Suspended.{
  owned_by, first_owned, get_owned_replica_set, with_success, get_suspend_deployment,
  get_suspend_deployments, answer_with, get_suspend_deployment_handler, SuspendDeployment,
}
use altershield_operator.Types.{ReplicaSet, Deployment, ChangeWorkload, OwnerReference}

module _ {S : Type 0} (api : Client S) {Q : Call → Type 0}
    (responds : (code : ℕ) → Q (respond code)) where
  Issues-json : (code : ℕ) → Issues Q (json api code)
  unfolding json
  Issues-json code = Issues-write _ _ (responds code)

  Issues-owned_by : (name : String) (refs : List OwnerReference) → Issues Q (owned_by api name refs)
  unfolding owned_by
  Issues-owned_by name [] = search issues_rules
  Issues-owned_by name (r ∷ rs) = search issues_rules

  Issues-first_owned :
      (name : String) (sets : List ReplicaSet) → Issues Q (first_owned api name sets)
  unfolding first_owned
  Issues-first_owned name [] = Issues-pure _
  Issues-first_owned name (rs ∷ rest) =
      Issues-bind _ _ (Issues-owned_by name rs.owner_references)
        (λ owned. Issues-if owned _ _ (λ _. Issues-pure rs) (λ _. Issues-first_owned name rest))

  Issues-with_success :
      (d : Deployment) (found : SuspendDeployment) (o : Option ChangeWorkload)
      → Issues Q (with_success api d found o)
  unfolding with_success get_owned_replica_set
  Issues-with_success d found none = Issues-pure _
  Issues-with_success d found (some w) = search (issues_rules, Issues-first_owned)

  Issues-get_suspend_deployment : (d : Deployment) → Issues Q (get_suspend_deployment api d)
  unfolding get_suspend_deployment get_owned_replica_set
  Issues-get_suspend_deployment d = search (issues_rules, Issues-first_owned, Issues-with_success)

  Issues-get_suspend_deployments :
      (ds : List Deployment) → Issues Q (get_suspend_deployments api ds)
  unfolding get_suspend_deployments
  Issues-get_suspend_deployments [] = Issues-pure _
  Issues-get_suspend_deployments (d ∷ ds) =
      Issues-bind _ _ (Issues-get_suspend_deployment d)
        (λ found. Issues-bind _ _ (Issues-get_suspend_deployments ds) (λ rest. Issues-pure _))

  Issues-answer_with : (reply : Reply (List SuspendDeployment)) → Issues Q (answer_with api reply)
  unfolding answer_with
  Issues-answer_with (failed e) = search (issues_rules, Issues-json)
  Issues-answer_with (done found) = search (issues_rules, Issues-json)

  pub Issues-suspended :
      (namespace : String) → Issues Q (get_suspend_deployment_handler api namespace)
  unfolding get_suspend_deployment_handler
  Issues-suspended namespace =
      search (issues_rules, Issues-get_suspend_deployments, Issues-answer_with)
