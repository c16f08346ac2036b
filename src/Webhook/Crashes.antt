-- ===== src/Webhook/Crashes.antt =====
-- Which deployments crash the mutating webhook.
use altershield_operator.Base.{String, ◌≡◌, ◌↔◌, refl, false, ◌⊎◌, inl, inr, Bool-cases, ◌==◌}
use altershield_operator.Base.Labels.{Labels, nil, made, label, set_label, delete_label}
use altershield_operator.Client.{Client}
use altershield_operator.Types.{Deployment}
use altershield_operator.Utils.Constants.{admission_webhook_version_label, defense_status_label}
use altershield_operator.Webhook.{crashed, get_deployment_template_hash, with_labels, mutate}
use altershield_operator.Webhook.Versions.{version}

made-ne-nil : {e : _} → made e ≡ nil → ⊥
made-ne-nil h = cc

module _ {S : Type 0} (api : Client S) where
  with_labels-crashes :
      (hash : String) (d : Deployment) (l t : Labels)
      → (with_labels api hash
            (record d { template_labels = delete_label admission_webhook_version_label t })
            (set_label admission_webhook_version_label hash (delete_label defense_status_label l))
          ≡ crashed)
        ↔ ((l ≡ nil) ⊎ (t ≡ nil))
  unfolding set_label delete_label
  with_labels-crashes hash d nil t = (λ h. inl refl, λ k. refl)
  with_labels-crashes hash d (made e) nil = (λ h. inr refl, λ k. refl)
  with_labels-crashes hash d (made e) (made f) =
      (λ h. absurd cc, elim [ inl k ↦ absurd (made-ne-nil k) | inr k ↦ absurd (made-ne-nil k) ])

  -- The webhook crashes on exactly these deployments: those whose version label, where none reads as the
  -- empty text, differs from their version, and that have no map of labels or no map of template labels.
  pub mutate-crashes :
      (d : Deployment)
      → (mutate api d ≡ crashed) ↔ (
          ((label admission_webhook_version_label d.labels == version api d) ≡ false)
          × ((d.labels ≡ nil) ⊎ (d.template_labels ≡ nil)))
  unfolding mutate get_deployment_template_hash
  mutate-crashes d =
      let (there, back) = with_labels-crashes (version api d) d d.labels d.template_labels in
      elim (Bool-cases (label admission_webhook_version_label d.labels == version api d)) [
        | inl e ↦ rw e (λ h. absurd cc, λ h. absurd cc)
        | inr e ↦ rw e (λ h. (refl, there h), λ h. back h.1)
      ]
