-- ===== src/Deployments/Idempotence.antt =====
-- The deployment controller, run again on a deployment that it has processed.
use mathlib.Core.Path.{subst}
use altershield_operator.Base.{String, ◌≡◌, refl, sym, ap, ◌∙◌, Bool, true, false, List, some, ◌⊎◌}
use altershield_operator.Base.Int.{ℤ}
use altershield_operator.Base.Labels.{
  Labels, made, has_label, set_label, delete_label, get_label?-set_label, get_label?-delete_label,
}
use altershield_operator.ChangePods.Status.{get_now_time}
use altershield_operator.Client.{Client}
use altershield_operator.Deployments.{
  count_threshold_of, new_change_workload, create_new_change_workload,
  get_or_create_change_workload, defense_processed_deployment, with_deployment, reconcile,
}
use altershield_operator.Exec.{Error, done, failed, ok, World, ◌>>=◌}
use altershield_operator.Exec.Leads.{
  Answers, Leads, Leads-pure, Leads-sample, Leads-ask, Leads-write, Leads-if, Leads-or_crash,
  Leads-bind, Leads-known, Leads-some, Leads-attempt, Leads-attempt_ask,
}
use altershield_operator.Predicates.{is_defensed}
use altershield_operator.Types.{ChangeWorkload, Deployment, NamespacedName}
use altershield_operator.Utils.Constants.{
  defense_status_label, defense_status_label_processed, ignored_suspend_label, time_layout,
}
use altershield_operator.Workloads.Reconcile.{get_change_workload_by_deployment}

abbrev pub key_of : Deployment → NamespacedName
key_of d = record { namespace = d.namespace; name = d.name }

-- `Is d s` says that in the state `s` the server has the deployment `d`, and no one else writes it: a patch of
-- it stores what it sends. A workload is there or is not found, and one that is created is stored.
pub record IsKeeping {S : Type 0} (api : Client S) (Is : Deployment → S → Type 0) : Type 0 where
  pub keeps_now : (d : Deployment) (s : S) → Is d s → Is d (api.now s).1
  pub keeps_now_text :
      (d : Deployment) (layout : String) (s : S) → Is d s → Is d (api.now_text layout s).1
  pub keeps_is_batch : (d : Deployment) (s : S) → Is d s → Is d (api.is_batch s).1
  pub keeps_batch_count : (d : Deployment) (s : S) → Is d s → Is d (api.batch_count s).1
  pub gets :
      (d : Deployment) → Answers (Is d) (api.get_deployment (key_of d)) (λ e s. (e ≡ d) × Is d s)
  pub looks :
      (d : Deployment) (key : NamespacedName) (s : S)
      → Is d s
      → ((w : ChangeWorkload) × ((api.get_workload key s).0 ≡ done w)
          × Is d (api.get_workload key s).1)
        ⊎ ((e : Error) × ((api.get_workload key s).0 ≡ failed e)
            × ((e.not_found ≡ true) × Is d (api.get_workload key s).1))
  pub creates :
      (d : Deployment) (w : ChangeWorkload) → Answers (Is d) (api.create_workload w) (λ v s. Is d s)
  pub patches :
      (d after : Deployment) → Answers (Is d) (api.patch_deployment d after) (λ e s. Is after s)

apart : {x : Bool} → x ≡ true → x ≡ false → ⊥
apart p q = cc

module _ {S : Type 0} (api : Client S) (Is : Deployment → S → Type 0)
    (keeping : IsKeeping api Is) where
  Leads-threshold :
      (d : Deployment) (replicas : ℤ)
      → d.spec_replicas ≡ some replicas
      → Leads (Is d) (count_threshold_of api d) (λ n s. Is d s)
  unfolding count_threshold_of
  Leads-threshold d replicas e =
      Leads-bind _ _ (Leads-sample _ (keeping.keeps_is_batch d)) (λ batch.
        Leads-if batch _ _
          (λ _. Leads-bind {Q = λ n s. Is d s} _ _ (Leads-or_crash _ replicas e (λ s p. p)) (λ n.
            Leads-bind _ _ (Leads-sample _ (keeping.keeps_batch_count d))
              (λ count. Leads-pure _ (λ s p. p))))
          (λ _. Leads-pure _ (λ s p. p)))

  Leads-create :
      (d : Deployment) (replicas : ℤ)
      → d.spec_replicas ≡ some replicas
      → Leads (Is d) (create_new_change_workload api d) (λ w s. Is d s)
  unfolding create_new_change_workload new_change_workload get_now_time
  Leads-create d replicas e =
      Leads-bind {Q = λ w s. Is d s} _ _
        (Leads-bind _ _ (Leads-threshold d replicas e) (λ threshold.
          Leads-bind _ _ (Leads-sample _ (keeping.keeps_now_text d time_layout)) (λ time.
            Leads-bind _ _ (Leads-sample _ (keeping.keeps_now d))
              (λ unix. Leads-pure _ (λ s p. p)))))
        (λ fresh. Leads-write _ _ (keeping.creates d _))

  Leads-get_or_create :
      (d : Deployment) (replicas : ℤ)
      → d.spec_replicas ≡ some replicas
      → Leads (Is d) (get_or_create_change_workload api d) (λ w s. Is d s)
  unfolding get_or_create_change_workload get_change_workload_by_deployment
  Leads-get_or_create d replicas e =
      Leads-attempt_ask _ _ (keeping.looks d _) (λ w. Leads-pure w (λ s p. p))
        (λ x. Leads-some _ (λ missing.
          Leads-if x.not_found _ _ (λ _. Leads-create d replicas e)
            (λ no. absurd (apart missing no))))

  -- A deployment that differs from `d` in its labels only, which have the mark.
  abbrev pub IsProcessed : Deployment → Deployment → Type 0
  IsProcessed d e = (is_defensed e.labels ≡ true) × (e ≡ record d { labels = e.labels })

  marked :
      (d : Deployment) (l : Labels)
      → set_label defense_status_label defense_status_label_processed d.labels ≡ some l
      → is_defensed (delete_label ignored_suspend_label l) ≡ true
  unfolding is_defensed has_label
  marked d l h =
      rw
        (
          is_defensed,
          has_label,
          get_label?-delete_label ignored_suspend_label defense_status_label l,
          get_label?-set_label defense_status_label defense_status_label_processed
              defense_status_label d.labels h,
        )
        refl

  Leads-process :
      (d : Deployment) (l : Labels)
      → set_label defense_status_label defense_status_label_processed d.labels ≡ some l
      → Leads
          (Is d)
          (defense_processed_deployment api d)
          (λ _ s. (e : Deployment) × IsProcessed d e × Is e s)
  unfolding defense_processed_deployment
  Leads-process d l h =
      Leads-bind {Q = λ m s. (m ≡ l) × Is d s} _ _ (Leads-or_crash _ l h (λ s p. (refl, p))) (λ m.
        Leads-some {P = λ _ s. Is d s} _ (λ k.
          Leads-bind _ _ (Leads-write _ _ (keeping.patches d _)) (λ stored. Leads-pure tt (λ s p. (
            record d { labels = delete_label ignored_suspend_label m },
            (marked d m (h ∙ ap some (sym k)), refl),
            p,
          )))))

  Leads-reconcile :
      (d : Deployment) (replicas : ℤ) (l : Labels)
      → is_defensed d.labels ≡ false
      → d.spec_replicas ≡ some replicas
      → set_label defense_status_label defense_status_label_processed d.labels ≡ some l
      → Leads (Is d) (reconcile api (key_of d)) (λ _ s. (e : Deployment) × IsProcessed d e × Is e s)
  unfolding reconcile with_deployment
  Leads-reconcile d replicas l f r h = Leads-attempt _ _ (Leads-ask _ (keeping.gets d)) (λ e.
      Leads-known (λ x. with_deployment api x) e d
        (Leads-if (is_defensed d.labels) _ _ (λ t. absurd (apart t f))
          (λ _. Leads-bind _ _ (Leads-get_or_create d replicas r) (λ w. Leads-process d l h))))

  -- A deployment that is processed is only read.
  reconcile_processed :
      (d : Deployment) (v : World S)
      → is_defensed d.labels ≡ true
      → Is d v.server
      → ((reconcile api (key_of d) v).0 ≡ ok tt)
        × ((reconcile api (key_of d) v).1.issued ≡ v.issued)
        × Is d (reconcile api (key_of d) v).1.server
  unfolding reconcile with_deployment ◌>>=◌
  reconcile_processed d v h p =
      let (e, found, (same, is)) = keeping.gets d v.server p in rw (found, same, h) (refl, refl, is)

  -- Two runs of the reconciler, and the world after each.
  abbrev pub IsSettled : Deployment → World S → Type 0
  IsSettled d v =
      let (first, v') = reconcile api (key_of d) v in
      let (second, v'') = reconcile api (key_of d) v' in
      (first ≡ ok tt)
      × (second ≡ ok tt)
      × (v''.issued ≡ v'.issued)
      × ((e : Deployment) × IsProcessed d e × Is e v''.server)

  -- The reconciler settles a deployment in one run. Against a server that keeps the deployment, for one with
  -- labels and a number of replicas that is not processed, both the first and a second run end without an
  -- error; the second writes nothing, so it makes no second workload; and the server then has the deployment
  -- with the mark, changed in its labels only.
  pub reconcile-IsSettled :
      (d : Deployment) (replicas : ℤ) (entries : List (String × String)) (v : World S)
      → is_defensed d.labels ≡ false
      → d.spec_replicas ≡ some replicas
      → d.labels ≡ made entries
      → Is d v.server
      → IsSettled d v
  unfolding set_label
  reconcile-IsSettled d replicas entries v f r m p =
      let (u, ends, (e, done_once, is)) =
        (Leads-reconcile d replicas _ f r
            (ap (set_label defense_status_label defense_status_label_processed) m)).at
          v p in
      let same : key_of e ≡ key_of d = ap key_of done_once.1 in
      let again = reconcile_processed e (reconcile api (key_of d) v).1 done_once.0 is in
      let v' = (reconcile api (key_of d) v).1 in
      let (quick, quiet, kept) =
        subst
          (λ key.
            ((reconcile api key v').0 ≡ ok tt)
            × ((reconcile api key v').1.issued ≡ v'.issued)
            × Is e (reconcile api key v').1.server)
          same again in
      (ends, quick, quiet, (e, done_once, kept))
