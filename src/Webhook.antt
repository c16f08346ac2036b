-- ===== src/Webhook.antt =====
-- apis/apps/v1/deployment_webhook.go: the admission webhook that versions deployments and refuses
-- updates of suspended ones.
pub mod Versions
pub mod Crashes
use Prim.Native.String.{◌++◌}
use altershield_operator.Base.{String, ℕ, List, [], ◌∷◌, Option, none, some, if◌then◌else◌, ◌==◌}
use altershield_operator.Base.Labels.{Labels, label, has_label, set_label, delete_label}
use altershield_operator.Client.{Client}
use altershield_operator.Exec.{Reply, done, failed, Error}
use altershield_operator.Types.{Deployment}
use altershield_operator.Utils.Constants.{
  admission_webhook_version_label, defense_status_label, suspend_label, ignored_suspend_label,
}

-- `admission.Response`: a patched response has the deployment that replaces the request's.
pub data Response : Type 0 where
  allowed : Response
  denied : String → Response
  errored : ℕ → Response
  patched : Deployment → Response
  crashed : Response

pub data Operation : Type 0 where
  create update delete connect : Operation

-- `ValidateUpdate`, with the message of its error.
unfoldable pub validate_update : Deployment → Deployment → Option String
unfolding has_label
validate_update r old =
    if has_label ignored_suspend_label r.labels
    then none
    else if has_label suspend_label old.labels
    then some (("deployment " ++ old.name) ++ " is suspended")
    else none

-- `ValidateCreate`
unfoldable pub validate_create : Deployment → Option String
validate_create r = none

-- `ValidateDelete`
unfoldable pub validate_delete : Deployment → Option String
validate_delete r = none

abbrev pub respond_to : Option String → Response
respond_to none = allowed
respond_to (some message) = denied message

abbrev validate_updated : Deployment → Reply Deployment → Response
validate_updated d (failed e) = errored 400
validate_updated d (done old) = respond_to (validate_update d old)

abbrev validated : Operation → Deployment → Reply Deployment → Response
validated create d old = respond_to (validate_create d)
validated update d old = validate_updated d old
validated delete d old = allowed
validated connect d old = allowed

-- `DeploymentValidator.Handle`, from the decoded objects of the request.
unfoldable pub validator_handle : Operation → Reply Deployment → Reply Deployment → Response
unfolding validate_update validate_create
validator_handle op (failed e) old = errored 400
validator_handle op (done d) old = validated op d old

module _ {S : Type 0} (api : Client S) where
  -- `getDeploymentTemplateHash`: the hash leaves the version label out, and so does the template of the
  -- caller's deployment from then on, since the map is shared.
  unfoldable pub get_deployment_template_hash : Deployment → String × Deployment
  unfolding delete_label
  get_deployment_template_hash d =
      let l = delete_label admission_webhook_version_label d.template_labels in
      (api.template_hash l d.template_spec, record d { template_labels = l })

  abbrev pub with_template_labels : Deployment → Option Labels → Response
  with_template_labels d none = crashed
  with_template_labels d (some l) = patched (record d { template_labels = l })

  abbrev pub with_labels : String → Deployment → Option Labels → Response
  with_labels hash d none = crashed
  with_labels hash d (some l) =
      with_template_labels (record d { labels = l })
        (set_label admission_webhook_version_label hash d.template_labels)

  -- The part of `DeploymentMutator.Handle` after the request was decoded. A write to a nil map of
  -- labels panics.
  unfoldable pub mutate : Deployment → Response
  unfolding get_deployment_template_hash label set_label delete_label
  mutate deployment =
      let (hash, d) = get_deployment_template_hash deployment in
      if label admission_webhook_version_label d.labels == hash
      then allowed
      else with_labels hash d (
          set_label admission_webhook_version_label hash
            (delete_label defense_status_label d.labels))

  -- `DeploymentMutator.Handle`
  unfoldable pub mutator_handle : Reply Deployment → Response
  unfolding mutate
  mutator_handle (failed e) = errored 400
  mutator_handle (done d) = mutate d

-- The two handlers that the webhook server can be given.
pub data AdmissionHandler : Type 0 where
  validator mutator : AdmissionHandler

-- The paths under which they are registered.
abbrev pub registered : List (String × AdmissionHandler)
registered =
    ("/validate-apps-v1-deployment", validator) ∷ ("/mutate-apps-v1-deployment", mutator) ∷ []

-- `InjectDecoder`, which is the same for both: a decoder that is not made is an error.
unfoldable pub inject_decoder : Reply (Unit {0}) → Option Error
inject_decoder (failed e) = some e
inject_decoder (done x) = none

-- `SetupWebhookWithManager`, from what `admission.NewDecoder` returns for the validator and for the
-- mutator: the error, or the handlers registered.
unfoldable pub setup_webhook_with_manager :
    Reply (Unit {0}) → Reply (Unit {0}) → Reply (List (String × AdmissionHandler))
unfolding inject_decoder
setup_webhook_with_manager for_validator for_mutator = elim (inject_decoder for_validator) [
  | some e ↦ failed e
  | none ↦ elim (inject_decoder for_mutator) [ some e ↦ failed e | none ↦ done registered ]
]
