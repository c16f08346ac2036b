-- ===== src/Deployments/Admission.antt =====
-- How the operator's own changes of deployments meet its validating webhook.
use mathlib.Core.Path.{subst}
use Prim.Native.String.{◌++◌}
use altershield_operator.Base.{
  String, ◌≡◌, refl, ◌∙◌, Bool, List, true, false, not, none, some, arith,
}
use altershield_operator.Base.Labels.{
  Labels, nil, made, lookup, insert, lookup-insert, has_label, set_label, delete_label, get_label?,
  get_label?-delete_label,
}
use altershield_operator.Calls.{Call, patch_deployment}
use altershield_operator.Exec.Issues.{
  Issues, Issues-bind, Issues-bind_knowing, Issues-if, Issues-pure, Issues-write, Issues-sample,
  Issues-or_crash, Returns-or_crash,
}
use altershield_operator.Client.{Client}
use altershield_operator.Types.{Deployment}
use altershield_operator.Utils.Constants.{
  suspend_label, ignored_suspend_label, defense_status_label,
}
use altershield_operator.Webhook.{validate_update}
use altershield_operator.Workloads.Suspend.{
  released_labels, patch_labels, add_suspend_label, remove_suspend_label,
  add_or_remove_deployment_suspend_label,
}
use altershield_operator.Deployments.{defense_processed_deployment}

-- The patches of deployments that the validating webhook admits; no other write.
abbrev pub IsAdmitted : Call → Type 0
IsAdmitted (patch_deployment before after) = validate_update after before ≡ none
IsAdmitted _ = ⊥

-- The patches of deployments that it denies.
abbrev pub IsDenied : Call → Type 0
IsDenied (patch_deployment before after) =
    (message : String) × (validate_update after before ≡ some message)
IsDenied _ = ⊥

pub get_label?_has :
    (k : String) (l : Labels) {v : String} → get_label? k l ≡ some v → has_label k l ≡ true
unfolding has_label
get_label?_has k l h = rw (has_label, h) refl

pub get_label?_has_not : (k : String) (l : Labels) → get_label? k l ≡ none → has_label k l ≡ false
unfolding has_label
get_label?_has_not k l h = rw (has_label, h) refl

released_lem :
    (f : List (String × String))
    → lookup ignored_suspend_label f ≡ some "true"
    → get_label? ignored_suspend_label
        (delete_label defense_status_label (delete_label suspend_label (made f)))
      ≡ some "true"
unfolding get_label?
released_lem f h =
    get_label?-delete_label defense_status_label ignored_suspend_label
      (delete_label suspend_label (made f))
    ∙ get_label?-delete_label suspend_label ignored_suspend_label (made f)
    ∙ h

pub released_has_ignored :
    (l : Labels) {m : Labels}
    → released_labels l ≡ some m
    → has_label ignored_suspend_label m ≡ true
unfolding released_labels set_label
released_has_ignored nil h = absurd cc
released_has_ignored (made e) {m} h =
    let same : delete_label defense_status_label
          (delete_label suspend_label (made (insert ignored_suspend_label "true" e)))
        ≡ m =
      cc in
    subst (λ (l : Labels). has_label ignored_suspend_label l ≡ true) same
      (get_label?_has _ _
        (released_lem _ (lookup-insert ignored_suspend_label ignored_suspend_label "true" e)))

pub admits_ignored :
    (r old : Deployment)
    → has_label ignored_suspend_label r.labels ≡ true
    → validate_update r old ≡ none
unfolding validate_update
admits_ignored r old h = rw h refl

pub admits_free :
    (r old : Deployment) → has_label suspend_label old.labels ≡ false → validate_update r old ≡ none
unfolding validate_update
admits_free r old h = ground arith

pub denied :
    (r old : Deployment)
    → has_label ignored_suspend_label r.labels ≡ false
    → has_label suspend_label old.labels ≡ true
    → validate_update r old ≡ some (("deployment " ++ old.name) ++ " is suspended")
unfolding validate_update
denied r old h g = rw (h, g) refl

denies :
    (r old : Deployment)
    → has_label ignored_suspend_label r.labels ≡ false
    → has_label suspend_label old.labels ≡ true
    → (message : String) × (validate_update r old ≡ some message)
denies r old h g = (_, denied r old h g)

module _ {S : Type 0} (api : Client S) {Q : Call → Type 0}
    (admitted : (before after : Deployment)
      → validate_update after before ≡ none
      → Q (patch_deployment before after)) where
  Issues-patch_labels :
      (d : Deployment) (l : Labels)
      → validate_update (record d { labels = l }) d ≡ none
      → Issues Q (patch_labels api d l)
  unfolding patch_labels
  Issues-patch_labels d l h =
      Issues-bind _ _ (Issues-write _ _ (admitted _ _ h)) (λ x. Issues-pure tt)

  Issues-add_suspend_label : (d : Deployment) → Issues Q (add_suspend_label api d)
  unfolding add_suspend_label
  Issues-add_suspend_label d =
      Issues-if (has_label suspend_label d.labels) _ _ (λ h. Issues-pure tt)
        (λ h. Issues-bind _ _ (Issues-sample _) (λ unix.
          Issues-bind _ _ (Issues-or_crash _) (λ l. Issues-patch_labels d l (admits_free _ d h))))

  Issues-remove_suspend_label : (d : Deployment) → Issues Q (remove_suspend_label api d)
  unfolding remove_suspend_label
  Issues-remove_suspend_label d =
      Issues-if (not (has_label suspend_label d.labels)) _ _ (λ h. Issues-pure tt)
        (λ h.
          Issues-bind_knowing _ _ (Issues-or_crash _) (Returns-or_crash _ (λ l e. e))
            (λ l e. Issues-patch_labels d l (admits_ignored _ d (released_has_ignored d.labels e))))

  pub Issues-add_or_remove :
      (d : Deployment) (b : Bool) → Issues Q (add_or_remove_deployment_suspend_label api d b)
  unfolding add_or_remove_deployment_suspend_label
  Issues-add_or_remove d false = Issues-remove_suspend_label d
  Issues-add_or_remove d true = Issues-bind _ _ (Issues-sample _) (λ blocking.
      Issues-if blocking _ _ (λ _. Issues-add_suspend_label d) (λ _. Issues-remove_suspend_label d))

module _ {S : Type 0} (api : Client S) where
  -- Whatever the server answers, suspending or releasing a deployment writes nothing but patches that
  -- the validating webhook admits.
  pub add_or_remove_deployment_suspend_label-IsAdmitted :
      (d : Deployment) (b : Bool)
      → Issues IsAdmitted (add_or_remove_deployment_suspend_label api d b)
  add_or_remove_deployment_suspend_label-IsAdmitted = Issues-add_or_remove api (λ before after h. h)

  -- Marking a suspended deployment as processed writes nothing but patches that the validating webhook
  -- denies.
  pub defense_processed_deployment-IsDenied :
      (d : Deployment)
      → has_label suspend_label d.labels ≡ true
      → Issues IsDenied (defense_processed_deployment api d)
  unfolding defense_processed_deployment
  defense_processed_deployment-IsDenied d h = Issues-bind _ _ (Issues-or_crash _) (λ l.
      Issues-bind _ _
        (Issues-write _ _ (
          denies _ d
            (get_label?_has_not ignored_suspend_label _
              (get_label?-delete_label ignored_suspend_label ignored_suspend_label l))
            h))
        (λ x. Issues-pure tt))
