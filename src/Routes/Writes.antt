-- ===== src/Routes/Writes.antt =====
-- What a request to the operator may write.
use mathlib.Core.Path.{subst}
use altershield_operator.Base.{String, ℕ, ◌≡◌, refl, sym, not, List, [], ◌∷◌, ◌==◌}
use altershield_operator.Callback.{
  json, check_callback_handler, with_listed, first_found, check_type_batch,
}
use altershield_operator.Callback.Effects.{Answers, stage-Answers}
use altershield_operator.Calls.{Call, respond, post, patch_change_pod_status}
use altershield_operator.Client.{Client}
use altershield_operator.Exec.{Reply, done, failed, World, Exec, pure, ◌>>=◌}
use altershield_operator.Exec.Issues.{
  Adds, Issues, Issues-bind, Issues-if, Issues-pure, Issues-write, Issues-ask, Issues-attempt,
  Issues-weaken, issues_rules,
}
use altershield_operator.Exec.Ends.{Ends}
use altershield_operator.Lifecycle.{Step}
use altershield_operator.Lifecycle.Refinement.{Answers-Step}
use altershield_operator.Opscloud.{
  submit_change_exec_order, submit_change_start_notify, submit_change_finish_notify,
}
use altershield_operator.Opscloud.Writes.{Issues-service_template}
use altershield_operator.Routes.{
  Handler, check_callback, live_test, suspended, rollback, exec_order_web, start_notify_web,
  finish_notify_web, HttpRequest, answer_result, forward, handle, guarded, cors, serve,
  submit_change_exec_order_web, submit_change_start_notify_web, submit_change_finish_notify_web,
}
use altershield_operator.Routes.Queries.{Issues-suspended}
use altershield_operator.Routes.Answers.{recovered_lem, cors_lem}
use altershield_operator.Types.{ChangePod}
use altershield_operator.Types.Opscloud.{
  CallbackRequest, CallbackWrapperRequest, OpsCloudResult, ExecOrderRequest, StartNotifyRequest,
  FinishNotifyRequest, exec_order, start_notify, finish_notify,
}

-- The routes that submit to the publishing service.
abbrev pub IsForwarding : Handler → Type 0
IsForwarding exec_order_web = Unit
IsForwarding start_notify_web = Unit
IsForwarding finish_notify_web = Unit
IsForwarding _ = ⊥

-- What a request that was routed to the handler may write: responses; posts where it forwards; and
-- patches of a change pod's status by a step of its life where it is the callback.
abbrev pub Serves : Handler → Call → Type 0
Serves h (respond code) = Unit
Serves h (post u b) = IsForwarding h
Serves h (patch_change_pod_status before after) =
    (h ≡ check_callback) × Step before.status.status after.status.status
Serves h _ = ⊥

Answers-Serves :
    (r : CallbackRequest) (c : ChangePod) (call : Call)
    → Answers r c call
    → Serves check_callback call
Answers-Serves r c (respond code) h = tt
Answers-Serves r c (patch_change_pod_status a d) h = (refl, Answers-Step r c a d h)
Answers-Serves r c _ h = absurd h

module _ {S : Type 0} (api : Client S) {h : Handler} where
  Issues-json : (code : ℕ) → Issues (Serves h) (json api code)
  unfolding json
  Issues-json code = Issues-write _ _ tt

  Issues-answer_result :
      (reply : Reply OpsCloudResult) → Issues (Serves h) (answer_result api reply)
  unfolding answer_result
  Issues-answer_result (failed e) = search (issues_rules, Issues-json)
  Issues-answer_result (done result) = search (issues_rules, Issues-json)

  Issues-forward :
      {A : Type 0} (submit : A → Exec S OpsCloudResult) (bound : Reply A)
      → ((a : A) → Issues (Serves h) (submit a))
      → Issues (Serves h) (forward api submit bound)
  unfolding forward
  Issues-forward submit (failed e) q = search (issues_rules, Issues-json)
  Issues-forward submit (done a) q =
      Issues-bind _ _ (Issues-attempt _ (q a)) (λ reply. Issues-answer_result reply)

  Issues-guarded :
      (next : Exec S (Unit {0})) → Issues (Serves h) next → Issues (Serves h) (guarded next)
  unfolding guarded
  Issues-guarded next q = record {
    at = λ w.
        subst (λ (v : World S). Adds (Serves h) w.issued v.issued) (sym (recovered_lem (next w)).1)
          (q.at w);
  }

  Issues-cors :
      (method : String) (next : Exec S (Unit {0}))
      → Issues (Serves h) next
      → Issues (Serves h) (cors api method next)
  unfolding cors
  Issues-cors method next q =
      Issues-bind _ _
        (Issues-if (method == "OPTIONS") _ _ (λ _. Issues-json 200) (λ _. Issues-pure tt))
        (λ _. Issues-guarded next q)

module _ {S : Type 0} (api : Client S) where
  Issues-first_found : (cs : List ChangePod) → Issues (Serves check_callback) (first_found api cs)
  unfolding first_found
  Issues-first_found [] = search (issues_rules, Issues-json)
  Issues-first_found (c ∷ cs) = Issues-pure c

  Issues-with_listed :
      (r : CallbackRequest) (cs : List ChangePod)
      → Issues (Serves check_callback) (with_listed api r cs)
  unfolding with_listed
  Issues-with_listed r cs =
      Issues-bind _ _ (Issues-first_found cs)
        (λ c. Issues-weaken (Answers-Serves r c) _ (stage-Answers api r c))

  Issues-check_callback :
      (bound : Reply CallbackWrapperRequest)
      → Issues (Serves check_callback) (check_callback_handler api bound)
  unfolding check_callback_handler
  Issues-check_callback (failed e) = Issues-json api 400
  Issues-check_callback (done r) =
      Issues-if (not (r.change_check_type == check_type_batch)) _ _ (λ _. Issues-pure tt)
        (λ _.
          Issues-bind _ _ (Issues-attempt _ (Issues-ask _)) (elim [
            | failed e ↦ Issues-pure tt
            | done cs ↦ Issues-with_listed r.callback_request cs
          ]))

  Issues-order :
      (bound : Reply ExecOrderRequest)
      → Issues
          (Serves exec_order_web)
          (submit_change_exec_order_web api bound >>= λ result. pure tt)
  unfolding submit_change_exec_order_web submit_change_exec_order
  Issues-order bound =
      Issues-bind _ _
        (Issues-forward api _ bound
          (λ a. Issues-service_template api (λ u b. tt) (exec_order a) "submitChangeExecOrder"))
        (λ _. Issues-pure tt)

  Issues-start :
      (bound : Reply StartNotifyRequest)
      → Issues
          (Serves start_notify_web)
          (submit_change_start_notify_web api bound >>= λ result. pure tt)
  unfolding submit_change_start_notify_web submit_change_start_notify
  Issues-start bound =
      Issues-bind _ _
        (Issues-forward api _ bound (λ a.
          Issues-service_template api (λ u b. tt) (start_notify a)
            "submitChangeExecBatchStartNotify"))
        (λ _. Issues-pure tt)

  Issues-finish :
      (bound : Reply FinishNotifyRequest)
      → Issues
          (Serves finish_notify_web)
          (submit_change_finish_notify_web api bound >>= λ result. pure tt)
  unfolding submit_change_finish_notify_web submit_change_finish_notify
  Issues-finish bound =
      Issues-bind _ _
        (Issues-forward api _ bound (λ a.
          Issues-service_template api (λ u b. tt) (finish_notify a) "submitChangeFinishNotify"))
        (λ _. Issues-pure tt)

  Issues-handle : (h : Handler) (r : HttpRequest) → Issues (Serves h) (handle api h r)
  unfolding handle
  Issues-handle check_callback r = Issues-check_callback r.callback
  Issues-handle live_test r = Issues-json api 200
  Issues-handle suspended r =
      Issues-bind _ _ (Issues-suspended api (λ code. tt) r.namespace) (λ _. Issues-pure tt)
  Issues-handle rollback r = Issues-pure tt
  Issues-handle exec_order_web r = Issues-order r.exec_order
  Issues-handle start_notify_web r = Issues-start r.start_notify
  Issues-handle finish_notify_web r = Issues-finish r.finish_notify

  -- Whatever the server and the service answer, a request that was routed ends without a panic, also
  -- where its handler panics, and in every case it writes nothing but responses, posts on the three routes
  -- that forward to the service, and, on the route of the callback, patches of change pods whose status
  -- takes a step of its life.
  pub serve-Serves :
      (h : Handler) (r : HttpRequest) → Issues (Serves h) (serve api h r) × Ends (serve api h r)
  unfolding serve
  serve-Serves h r = (
    Issues-cors api r.method (handle api h r) (Issues-handle h r),
    record { at = λ w. (cors_lem api r.method (handle api h r) w).0 },
  )
