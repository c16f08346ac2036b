-- ===== src/Routes.antt =====
-- routers/router.go, and the routes whose handlers only forward a request or answer a constant
-- (controllers/client/opscloud_client.go, controllers/callback/nodecallbak_handle.go,
-- controllers/callback/deployment_handle.go).
pub mod Writes
pub mod Queries
pub mod Answers
use altershield_operator.Base.{String, List, [], ◌∷◌, Option, none, some, if◌then◌else◌, ◌==◌}
use altershield_operator.Callback.{json, check_callback_handler}
use altershield_operator.Exec.{
  Reply, done, failed, Outcome, ok, err, panic, World, Exec, pure, attempt, ◌>>=◌, ◌>>◌,
}
use altershield_operator.Client.{Client}
use altershield_operator.Opscloud.{
  submit_change_exec_order, submit_change_start_notify, submit_change_finish_notify,
}
use altershield_operator.Suspended.{get_suspend_deployment_handler}
use altershield_operator.Types.Opscloud.{
  OpsCloudResult, ExecOrderRequest, StartNotifyRequest, FinishNotifyRequest, CallbackWrapperRequest,
}

pub data Handler : Type 0 where
  check_callback live_test suspended rollback : Handler
  exec_order_web start_notify_web finish_notify_web : Handler

-- A route: its method, its path and its handler.
pub record Route : Type 0 where
  pub method : String
  pub path : String
  pub handler : Handler

-- The routes of `SetupRouter`, each group with its prefix.
abbrev pub setup_router : List Route
setup_router =
    (record { method = "POST"; path = "/openapi/altershield/callback"; handler = check_callback })
    ∷ (record { method = "POST"; path = "/openapi/altershield/liveTest"; handler = live_test })
    ∷ (record {
      method = "GET";
      path = "/openapi/altershield/suspend/deployment";
      handler = suspended;
    })
    ∷ (record {
      method = "PUT";
      path = "/openapi/altershield/deployment/rollback";
      handler = rollback;
    })
    ∷ (record {
      method = "POST";
      path = "/altershield/client/submitChangeExecOrderWeb";
      handler = exec_order_web;
    })
    ∷ (record {
      method = "POST";
      path = "/altershield/client/submitChangeStartNotifyWeb";
      handler = start_notify_web;
    })
    ∷ (record {
      method = "POST";
      path = "/altershield/client/submitChangeFinishNotifyWeb";
      handler = finish_notify_web;
    })
    ∷ []

-- What the handlers read of a request: `c.Request.Method`, the header `Origin`, the query
-- `namespace`, and what `c.ShouldBindJSON` gives for the type that the handler binds.
pub record HttpRequest : Type 0 where
  pub method : String
  pub origin : String
  pub namespace : String
  pub callback : Reply CallbackWrapperRequest
  pub exec_order : Reply ExecOrderRequest
  pub start_notify : Reply StartNotifyRequest
  pub finish_notify : Reply FinishNotifyRequest

-- The headers that `Cors` sets on the response. `c.Set("content-type", …)` sets a key of the context
-- and no header.
unfoldable pub cors_headers : String → List (String × String)
cors_headers origin =
    if origin == ""
    then []
    else ("Access-Control-Allow-Origin", "*")
      ∷ ("Access-Control-Allow-Methods", "POST, GET, OPTIONS, PUT, DELETE,UPDATE")
      ∷ (
        "Access-Control-Allow-Headers",
        "Authorization, Content-Length, X-CSRF-Token, Token,session,X_Requested_With,Accept, Origin, Host, Connection, Accept-Encoding, Accept-Language,DNT, X-CustomHeader, Keep-Alive, User-Agent, X-Requested-With, If-Modified-Since, Cache-Control, Content-Type, Pragma",
      )
      ∷ (
        "Access-Control-Expose-Headers",
        "Content-Length, Access-Control-Allow-Origin, Access-Control-Allow-Headers,Cache-Control,Content-Language,Content-Type,Expires,Last-Modified,Pragma,FooBar",
      )
      ∷ ("Access-Control-Max-Age", "172800")
      ∷ ("Access-Control-Allow-Credentials", "false")
      ∷ []

module _ {S : Type 0} where
  -- A panic that the deferred function recovers from: it is only logged.
  abbrev pub recovered : Outcome (Unit {0}) × World S → Outcome (Unit {0}) × World S
  recovered (panic, w) = (ok tt, w)
  recovered (ok a, w) = (ok a, w)
  recovered (err e, w) = (err e, w)

  -- `c.Next()` under the deferred function.
  unfoldable pub guarded : Exec S (Unit {0}) → Exec S (Unit {0})
  guarded next w = recovered (next w)

module _ {S : Type 0} (api : Client S) where
  -- The answer of a Web handler to what the service returned; the result is the `data` of its body.
  unfoldable pub answer_result : Reply OpsCloudResult → Exec S (Option OpsCloudResult)
  unfolding json
  answer_result (failed e) = do json api 500; pure none
  answer_result (done result) = do json api 200; pure (some result)

  -- The three Web handlers, which differ in the request that they bind and submit.
  unfoldable pub forward :
      {A : Type 0} → (A → Exec S OpsCloudResult) → Reply A → Exec S (Option OpsCloudResult)
  unfolding json answer_result
  forward submit (failed e) = do json api 400; pure none
  forward submit (done data_) = do result ← attempt (submit data_); answer_result result

  -- `SubmitChangeExecOrderWeb`
  unfoldable pub submit_change_exec_order_web :
      Reply ExecOrderRequest → Exec S (Option OpsCloudResult)
  unfolding forward submit_change_exec_order
  submit_change_exec_order_web = forward (submit_change_exec_order api)

  -- `SubmitChangeStartNotifyWeb`
  unfoldable pub submit_change_start_notify_web :
      Reply StartNotifyRequest → Exec S (Option OpsCloudResult)
  unfolding forward submit_change_start_notify
  submit_change_start_notify_web = forward (submit_change_start_notify api)

  -- `SubmitChangeFinishNotifyWeb`
  unfoldable pub submit_change_finish_notify_web :
      Reply FinishNotifyRequest → Exec S (Option OpsCloudResult)
  unfolding forward submit_change_finish_notify
  submit_change_finish_notify_web = forward (submit_change_finish_notify api)

  -- The handler of a route on a request; `LiveTest` answers a constant and `DeploymentRollback` is
  -- empty.
  unfoldable pub handle : Handler → HttpRequest → Exec S (Unit {0})
  unfolding json check_callback_handler get_suspend_deployment_handler submit_change_exec_order_web
      submit_change_start_notify_web submit_change_finish_notify_web
  handle check_callback r = check_callback_handler api r.callback
  handle live_test r = json api 200
  handle suspended r = do found ← get_suspend_deployment_handler api r.namespace; pure tt
  handle rollback r = pure tt
  handle exec_order_web r = do result ← submit_change_exec_order_web r.exec_order; pure tt
  handle start_notify_web r = do result ← submit_change_start_notify_web r.start_notify; pure tt
  handle finish_notify_web r = do result ← submit_change_finish_notify_web r.finish_notify; pure tt

  -- `Cors`, around the handlers that come next.
  unfoldable pub cors : String → Exec S (Unit {0}) → Exec S (Unit {0})
  unfolding json guarded
  cors method next = do if method == "OPTIONS" then json api 200 else pure tt; guarded next

  -- A request that was routed.
  unfoldable pub serve : Handler → HttpRequest → Exec S (Unit {0})
  unfolding handle cors
  serve handler r = cors r.method (handle handler r)
