-- ===== src/Webhook/Versions.antt =====
-- What the mutating webhook does to a deployment.
use altershield_operator.Base.{
  String, ◌≡◌, ◌≢◌, refl, ap, sym, ◌∙◌, Bool, true, false, List, [], ◌∷◌, Option, none, some, ◌==◌,
  eq_iff, eq_refl, arith, if◌then◌else◌, Bool-cases, inl, inr,
}
use altershield_operator.Base.Labels.{
  Labels, nil, made, get_label?, label, set_label, delete_label, insert, erase,
  get_label?-set_label, get_label?-delete_label,
}
use altershield_operator.Client.{Client}
use altershield_operator.Types.{Deployment}
use altershield_operator.Utils.Constants.{admission_webhook_version_label, defense_status_label}
use altershield_operator.Webhook.{
  Response, allowed, patched, crashed, get_deployment_template_hash, with_template_labels,
  with_labels, mutate,
}

erase-insert : (k v : String) (m : List (String × String)) → erase k (insert k v m) ≡ erase k m
unfolding erase insert
erase-insert k v [] = ground (arith, eq_refl k)
erase-insert k v ((j, w) ∷ m) = ground (arith, eq_refl k, erase-insert k v m)

delete_label-set_label :
    (k v : String) (l : Labels) {m : Labels}
    → set_label k v l ≡ some m
    → delete_label k m ≡ delete_label k l
unfolding set_label delete_label
delete_label-set_label k v nil h = cc
delete_label-set_label k v (made e) {m = nil} h = ground arith
delete_label-set_label k v (made e) {m = made f} h = ground (arith, erase-insert k v e)

erase-erase : (k : String) (m : List (String × String)) → erase k (erase k m) ≡ erase k m
unfolding erase
erase-erase k [] = refl
erase-erase k ((j, w) ∷ m) = ground (arith, eq_iff j k, erase-erase k m)

delete_label-delete_label :
    (k : String) (l : Labels) → delete_label k (delete_label k l) ≡ delete_label k l
unfolding delete_label
delete_label-delete_label k nil = refl
delete_label-delete_label k (made e) = ap made (erase-erase k e)

module _ {S : Type 0} (api : Client S) where
  -- The version that the webhook computes for a deployment.
  abbrev pub version : Deployment → String
  version d =
      api.template_hash (delete_label admission_webhook_version_label d.template_labels)
        d.template_spec

  with_labels_nil :
      (hash : String) (d : Deployment) (l : Labels)
      → l ≡ nil
      → with_labels api hash d
          (set_label admission_webhook_version_label hash (delete_label defense_status_label l))
        ≡ crashed
  unfolding set_label delete_label
  with_labels_nil hash d l h = rw h refl

  label_nil : (k : String) (l : Labels) → l ≡ nil → label k l ≡ ""
  unfolding label get_label?
  label_nil k l h = rw h refl

  -- A deployment without labels, whose version is not the empty text, crashes the webhook.
  pub mutate_nil : (d : Deployment) → d.labels ≡ nil → version d ≢ "" → mutate api d ≡ crashed
  unfolding mutate get_deployment_template_hash
  mutate_nil d h v =
      let n =
        with_labels_nil (version d)
          (record d {
            template_labels = delete_label admission_webhook_version_label d.template_labels;
          })
          d.labels h in
      let e = label_nil admission_webhook_version_label d.labels h in
      elim (Bool-cases ("" == version d)) [
        | inl q ↦ absurd (v (sym ((eq_iff "" (version d)).0 q)))
        | inr q ↦ rw (e, q, n) refl
      ]

  with_template_labels_inv :
      (d : Deployment) (o : Option Labels) {p : Deployment}
      → with_template_labels api d o ≡ patched p
      → (l : Labels) × (o ≡ some l) × (p ≡ record d { template_labels = l })
  with_template_labels_inv d none h = absurd cc
  with_template_labels_inv d (some l) h = (l, refl, cc)

  with_labels_inv :
      (hash : String) (d : Deployment) (o : Option Labels) {p : Deployment}
      → with_labels api hash d o ≡ patched p
      → (l : Labels) × (t : Labels) × (o ≡ some l)
        × (set_label admission_webhook_version_label hash d.template_labels ≡ some t)
        × (p ≡ record d { labels = l; template_labels = t })
  with_labels_inv hash d none h = absurd cc
  with_labels_inv hash d (some l) h =
      let (t, e, q) = with_template_labels_inv (record d { labels = l }) _ h in (l, t, refl, e, q)

  else_patched :
      (b : Bool) (x : Response) {p : Deployment}
      → (if b then allowed else x) ≡ patched p
      → x ≡ patched p
  else_patched true x h = absurd cc
  else_patched false x h = h

  mutate_inv :
      (d p : Deployment)
      → mutate api d ≡ patched p
      → (l : Labels) × (t : Labels) × (set_label admission_webhook_version_label
            (version d)
            (delete_label defense_status_label d.labels)
          ≡ some l)
        × (set_label admission_webhook_version_label
              (version d)
              (delete_label admission_webhook_version_label d.template_labels)
            ≡ some t)
        × (p ≡ record d { labels = l; template_labels = t })
  unfolding mutate get_deployment_template_hash
  mutate_inv d p h =
      with_labels_inv _ (get_deployment_template_hash api d).1 _
        (else_patched (label admission_webhook_version_label d.labels == version d) _ h)

  -- The second deployment is the first with its version.
  abbrev pub IsVersioned : Deployment → Deployment → Type 0
  IsVersioned d p =
      (get_label? admission_webhook_version_label p.labels ≡ some (version d))
      × (get_label? admission_webhook_version_label p.template_labels ≡ some (version d))
      × (get_label? defense_status_label p.labels ≡ none)
      × ((k : String)
          → (admission_webhook_version_label == k) ≡ false
          → (defense_status_label == k) ≡ false
          → get_label? k p.labels ≡ get_label? k d.labels)
      × ((k : String)
          → (admission_webhook_version_label == k) ≡ false
          → get_label? k p.template_labels ≡ get_label? k d.template_labels)
      × (p ≡ record d { labels = p.labels; template_labels = p.template_labels })

  -- A deployment that the webhook patches carries its version, the hash of its template without the
  -- version label, in its labels and in those of its template, has lost the label that marks it as
  -- processed, and keeps every other label of its own and of its template, and all besides these labels.
  pub mutate-IsVersioned : (d p : Deployment) → mutate api d ≡ patched p → IsVersioned d p
  mutate-IsVersioned d p h =
      let (l, t, el, et, ep) = mutate_inv d p h in
      let v = admission_webhook_version_label in
      let gone = λ (k : String). get_label?-delete_label defense_status_label k d.labels in
      let dropped = λ (k : String). get_label?-delete_label v k d.template_labels in
      let pl = ap (λ (x : Deployment). x.labels) ep in
      let pt = ap (λ (x : Deployment). x.template_labels) ep in
      (
        rw (pl, get_label?-set_label v _ v _ el) refl,
        rw (pt, get_label?-set_label v _ v _ et) refl,
        rw (pl, get_label?-set_label v _ defense_status_label _ el, gone defense_status_label) refl,
        λ k h e. rw (pl, get_label?-set_label v _ k _ el, h, gone k, e) refl,
        λ k h. rw (pt, get_label?-set_label v _ k _ et, h, dropped k, h) refl,
        rw ep refl,
      )

  label-some : (k : String) (l : Labels) {v : String} → get_label? k l ≡ some v → label k l ≡ v
  unfolding label
  label-some k l h = rw (label, h) refl

  version_at :
      (p : Deployment) {t : Labels} {spec : String}
      → p.template_labels ≡ t
      → p.template_spec ≡ spec
      → version p ≡ api.template_hash (delete_label admission_webhook_version_label t) spec
  version_at p ht hs = rw (ht, hs) refl

  version-mutate : (d p : Deployment) → mutate api d ≡ patched p → version p ≡ version d
  version-mutate d p h =
      let (l, t, el, et, ep) = mutate_inv d p h in
      let v = admission_webhook_version_label in
      version_at p (ap (λ (x : Deployment). x.template_labels) ep)
        (ap (λ (x : Deployment). x.template_spec) ep)
      ∙ ap (λ (k : Labels). api.template_hash k d.template_spec)
          (delete_label-set_label v _ (delete_label v d.template_labels) et
            ∙ delete_label-delete_label v d.template_labels)

  if_version :
      (p : Deployment)
      → label admission_webhook_version_label p.labels ≡ version p
      → mutate api p ≡ allowed
  unfolding mutate get_deployment_template_hash
  if_version p h = rw (h, eq_refl (version p)) refl

  -- A deployment that the webhook has patched is allowed unchanged when the webhook sees it again.
  pub mutate_settles : (d p : Deployment) → mutate api d ≡ patched p → mutate api p ≡ allowed
  mutate_settles d p h =
      if_version p (label-some _ _ (mutate-IsVersioned d p h).0 ∙ sym (version-mutate d p h))
