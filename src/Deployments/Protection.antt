-- ===== src/Deployments/Protection.antt =====
-- What a suspension protects a deployment from, and how its release ends that.
use Prim.Native.String.{◌++◌}
use altershield_operator.Base.{
  String, ◌≡◌, refl, ◌∙◌, true, false, List, ◌∷◌, none, some, inl, inr, eq_refl,
}
use altershield_operator.Base.Labels.{
  Labels, made, insert, lookup-insert, has_label, set_label, get_label?, delete_label,
  get_label?-delete_label,
}
use altershield_operator.Calls.{patch_deployment}
use altershield_operator.Client.{Client}
use altershield_operator.Exec.{World, Reply-cases, pure, write, ◌>>=◌}
use altershield_operator.Types.{Deployment}
use altershield_operator.Utils.Constants.{
  suspend_label, ignored_suspend_label, defense_status_label,
}
use altershield_operator.Deployments.Admission.{
  get_label?_has, get_label?_has_not, admits_free, admits_ignored, denied, released_has_ignored,
}
use altershield_operator.Webhook.{validate_update}
use altershield_operator.Workloads.Suspend.{
  released_labels, patch_labels, add_suspend_label, remove_suspend_label,
}

set_label-made :
    (k v : String) (l : Labels) (entries : List (String × String))
    → l ≡ made entries
    → set_label k v l ≡ some (made (insert k v entries))
unfolding set_label
set_label-made k v l entries e = rw e refl

has_label-insert :
    (k v : String) (entries : List (String × String))
    → has_label k (made (insert k v entries)) ≡ true
unfolding get_label?
has_label-insert k v entries =
    get_label?_has k (made (insert k v entries)) {v = v}
      (lookup-insert k k v entries ∙ rw (eq_refl k) refl)

-- A release makes labels that do not suspend and that the webhook lets pass.
released_labels-made :
    (entries : List (String × String))
    → (m : Labels) × (released_labels (made entries) ≡ some m) × (has_label suspend_label m ≡ false)
unfolding released_labels set_label
released_labels-made entries =
    let noted = made (insert ignored_suspend_label "true" entries) in
    (
      _,
      refl,
      get_label?_has_not suspend_label _ (
          get_label?-delete_label defense_status_label suspend_label
            (delete_label suspend_label noted)
          ∙ get_label?-delete_label suspend_label suspend_label noted),
    )

module _ {S : Type 0} (api : Client S) where
  patch_labels-issued :
      (d : Deployment) (l : Labels) (w : World S)
      → (patch_labels api d l w).1.issued ≡ patch_deployment d (record d { labels = l }) ∷ w.issued
  unfolding patch_labels ◌>>=◌ pure write
  patch_labels-issued d l w =
      elim (Reply-cases (api.patch_deployment d (record d { labels = l }) w.server).0) [
        | inl (x, h) ↦ rw h refl
        | inr (e, h) ↦ rw h refl
      ]

  -- Suspending writes the deployment with the label, at the time of the clock.
  suspends :
      (d : Deployment) (entries : List (String × String)) (w : World S)
      → d.labels ≡ made entries
      → has_label suspend_label d.labels ≡ false
      → let l = made (insert suspend_label (api.format_int (api.now w.server).0) entries) in
        (add_suspend_label api d w).1.issued
        ≡ patch_deployment d (record d { labels = l }) ∷ w.issued
  unfolding add_suspend_label ◌>>=◌
  suspends d entries w e h =
      rw (h, set_label-made suspend_label (api.format_int (api.now w.server).0) d.labels entries e)
        (patch_labels-issued d _ _)

  -- Releasing writes the deployment with the released labels.
  releases :
      (d : Deployment) (m : Labels) (w : World S)
      → has_label suspend_label d.labels ≡ true
      → released_labels d.labels ≡ some m
      → (remove_suspend_label api d w).1.issued
        ≡ patch_deployment d (record d { labels = m }) ∷ w.issued
  unfolding remove_suspend_label ◌>>=◌
  releases d m w h e = rw (h, e) (patch_labels-issued d m _)

  -- A deployment that was suspended, and how it is released: it is written with the label; the webhook
  -- denies every update of it that has not the label of the exception, with a message that names it; the
  -- release, at any later time, is written and admitted; and after it every update is admitted.
  abbrev pub IsProtected : Deployment → World S → World S → Deployment → Deployment → Type 0
  IsProtected d w v suspended released =
      ((add_suspend_label api d w).1.issued ≡ patch_deployment d suspended ∷ w.issued)
      × ((r : Deployment)
          → has_label ignored_suspend_label r.labels ≡ false
          → validate_update r suspended
            ≡ some (("deployment " ++ suspended.name) ++ " is suspended"))
      × ((remove_suspend_label api suspended v).1.issued
          ≡ patch_deployment suspended released ∷ v.issued)
      × (validate_update released suspended ≡ none)
      × ((r : Deployment) → validate_update r released ≡ none)

  -- Whatever the server and the clock answer, a deployment with labels that is not suspended is, by the
  -- branch that suspends, written with the label of a suspension, and the validating webhook then denies
  -- each update that does not have the label of the exception, by a message that names the deployment.
  -- The branch that releases it, in any later world, writes it so that the webhook admits the release
  -- itself and every update after it.
  pub suspend-IsProtected :
      (d : Deployment) (entries : List (String × String)) (w v : World S)
      → d.labels ≡ made entries
      → has_label suspend_label d.labels ≡ false
      → (suspended : Deployment) × (released : Deployment) × IsProtected d w v suspended released
  suspend-IsProtected d entries w v e h =
      let time = api.format_int (api.now w.server).0 in
      let suspended : Deployment = record d { labels = made (insert suspend_label time entries) } in
      let label = has_label-insert suspend_label time entries in
      let (m, step, free) = released_labels-made (insert suspend_label time entries) in
      let released : Deployment = record suspended { labels = m } in
      (
        suspended,
        released,
        (
          suspends d entries w e h,
          λ r n. denied r suspended n label,
          releases suspended m v label step,
          admits_ignored released suspended (released_has_ignored suspended.labels step),
          λ r. admits_free r released free,
        ),
      )
