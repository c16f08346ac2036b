-- ===== src/Opscloud.antt =====
-- controllers/client/opscloud_client.go: the calls of the publishing service.
pub mod Retry
pub mod Writes
use Prim.Native.String.{◌++◌}
use altershield_operator.Base.{String, ℕ, zero, suc, false, [], ◌∷◌, if◌then◌else◌, leb}
use altershield_operator.Base.Int.{ℤ}
use altershield_operator.Calls.{post}
use altershield_operator.Exec.{
  done, failed, Exec, pure, raise, crash, ask, write, sample, attempt, ◌>>=◌,
}
use altershield_operator.Client.{Client, Selector}
use altershield_operator.Types.Opscloud.{
  Request, OpsCloudResult, ExecOrderRequest, StartNotifyRequest, FinishNotifyRequest, exec_order,
  start_notify, finish_notify,
}

abbrev pub http_header_platform_key : String
http_header_platform_key = "X-OpsCloud-Platform"

abbrev pub http_header_timestamp_key : String
http_header_timestamp_key = "X-OpsCloud-Timestamp"

abbrev pub http_header_sign_key : String
http_header_sign_key = "X-OpsCloud-Sign"

abbrev pub platform : String
platform = "cafed"

abbrev pub token : String
token = "123"

abbrev pub ops_cloud_domain : String
ops_cloud_domain = "http://localhost:8080"

abbrev pub max_retry_count : ℕ
max_retry_count = 3

-- `buildUri`: the format is /openapi/{API version}/exe/{action}.
unfoldable pub build_uri : String → String
build_uri action = ops_cloud_domain ++ ("/openapi/v1/exe/" ++ action)

module _ {S : Type 0} (api : Client S) where
  open api use {now, format_int, digest, http_do, read_all, marshal, unmarshal}

  -- `sign`
  unfoldable pub sign : ℤ → String → String
  sign current_time content = digest (format_int current_time ++ (content ++ ("&token=" ++ token)))

  -- The loop of `doPost` from round `r`. The first number bounds the rounds.
  unfoldable pub post_loop : ℕ → ℕ → String → Selector → String → Exec S String
  post_loop zero r uri headers body = crash
  post_loop (suc fuel) r uri headers body = do
    reply ← attempt (write (post uri body) (http_do uri headers body))
    elim reply [
      | done resp ↦ pure resp
      | failed e ↦
          if leb r max_retry_count then post_loop fuel (suc r) uri headers body else raise e
    ]

  -- `doPost`
  unfoldable pub do_post : String → Request → Exec S OpsCloudResult
  unfolding sign post_loop
  do_post uri request = do
    let body = marshal request
    current_time ← sample now
    resp ←
        post_loop (suc (suc max_retry_count)) 0 uri
          ((http_header_platform_key, platform)
            ∷ (http_header_timestamp_key, format_int current_time)
            ∷ (http_header_sign_key, sign current_time body)
            ∷ ("Content-Type", "application/json")
            ∷ [])
          body
    all ← ask (read_all resp)
    ask (λ s. (unmarshal all, s))

  -- `serviceTemplate`: a result that says failure is an error with its message.
  unfoldable pub service_template : Request → String → Exec S OpsCloudResult
  unfolding do_post build_uri
  service_template request action = do
    result ← do_post (build_uri action) request
    if result.success
        then pure result
        else raise (record { not_found = false; message = result.msg })

  -- `SubmitChangeExecOrder`
  unfoldable pub submit_change_exec_order : ExecOrderRequest → Exec S OpsCloudResult
  unfolding service_template
  submit_change_exec_order request = service_template (exec_order request) "submitChangeExecOrder"

  -- `SubmitChangeStartNotify`
  unfoldable pub submit_change_start_notify : StartNotifyRequest → Exec S OpsCloudResult
  unfolding service_template
  submit_change_start_notify request =
      service_template (start_notify request) "submitChangeExecBatchStartNotify"

  -- `SubmitChangeFinishNotify`
  unfoldable pub submit_change_finish_notify : FinishNotifyRequest → Exec S OpsCloudResult
  unfolding service_template
  submit_change_finish_notify request =
      service_template (finish_notify request) "submitChangeFinishNotify"
