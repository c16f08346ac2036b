-- ===== src/Opscloud/Writes.antt =====
-- The calls of the publishing service issue posts and nothing else.
use altershield_operator.Base.{String, ℕ, zero, suc, leb}
use altershield_operator.Calls.{Call, post}
use altershield_operator.Exec.{done, failed}
use altershield_operator.Exec.Issues.{
  Issues, Issues-bind, Issues-if, Issues-pure, Issues-raise, Issues-write, Issues-attempt,
  issues_rules,
}
use altershield_operator.Client.{Client, Selector}
use altershield_operator.Types.Opscloud.{Request}
use altershield_operator.Opscloud.{post_loop, do_post, service_template, max_retry_count}

module _ {S : Type 0} (api : Client S) {Q : Call → Type 0}
    (posts : (u b : String) → Q (post u b)) where
  Issues-post_loop :
      (f r : ℕ) (uri : String) (headers : Selector) (body : String)
      → Issues Q (post_loop api f r uri headers body)
  unfolding post_loop
  Issues-post_loop zero r uri headers body = search issues_rules
  Issues-post_loop (suc f) r uri headers body =
      Issues-bind _ _ (Issues-attempt _ (Issues-write _ _ (posts uri body))) (elim [
        | done resp ↦ Issues-pure resp
        | failed e ↦
            Issues-if (leb r max_retry_count) _ _ (λ _. Issues-post_loop f (suc r) uri headers body)
              (λ _. Issues-raise e)
      ])

  pub Issues-service_template :
      (request : Request) (action : String) → Issues Q (service_template api request action)
  unfolding service_template do_post
  Issues-service_template request action = search (issues_rules, Issues-post_loop)
