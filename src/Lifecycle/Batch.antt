-- ===== src/Lifecycle/Batch.antt =====
-- The handlers of a change pod against a server that keeps it and a service that accepts.
use altershield_operator.Base.{String, ◌≡◌, refl, ap, ◌∙◌, true, some}
use altershield_operator.Base.Int.{ℤ}
use altershield_operator.Client.{Client}
use altershield_operator.Exec.{Exec, pure, sample, ◌>>=◌}
use altershield_operator.Exec.Leads.{
  Leads, Leads-pure, Leads-sample, Leads-ask, Leads-write, Leads-if, Leads-bind, Leads-attempt,
  Leads-some,
}
use altershield_operator.ChangePods.Notify.{node_id_of, submit_change_start_notify_and_get_node_id}
use altershield_operator.ChangePods.Reconcile.{
  pre_wait_handle, pre_wait_answered, post_wait_handle, post_wait_answered,
  handle_finished_change_pod,
}
use altershield_operator.ChangePods.Status.{
  get_now_time, set_change_pod_status, set_change_pod_pre_submitted_status,
  set_change_pod_post_submitted_status, set_change_pod_done_status, update_status,
}
use altershield_operator.Lifecycle.Server.{IsServing, Has, IsStamped, IsSubmitted}
use altershield_operator.Opscloud.{
  do_post, post_loop, service_template, submit_change_start_notify, submit_change_finish_notify,
}
use altershield_operator.Types.{ChangePod, ChangePodStatus}
use altershield_operator.Types.Opscloud.{Request}
use altershield_operator.Types.State.{ChangePodState, pre_submitted, post_submitted, execute_done}
use altershield_operator.Utils.Constants.{time_layout}

module _ {S : Type 0} (api : Client S) (id : String) (Is : ChangePod → S → Type 0)
    (serves : IsServing api id Is) where
  pub Leads-now : (c : ChangePod) → Leads (Is c) (get_now_time api) (λ time s. Is c s)
  unfolding get_now_time
  Leads-now c = Leads-sample _ (serves.keeps_now_text c time_layout)

  pub Leads-update_status :
      (c : ChangePod) (t : ChangePodStatus) (T : ChangePodStatus → Type 0)
      → T t
      → Leads (Is c) (update_status api (record c { status = t })) (λ _ s. Has Is c T s)
  unfolding update_status
  Leads-update_status c t T h =
      Leads-bind _ _ (Leads-write _ _ (serves.updates_status c (record c { status = t })))
        (λ stored. Leads-some _ (λ e. Leads-pure tt (λ s p. (t, h, p))))

  pub Leads-set :
      (c : ChangePod) (t : ChangePodStatus) (st : ChangePodState)
      → Leads (Is c) (set_change_pod_status api st (record c { status = t })) (λ d s.
        ((u : ChangePodStatus) × IsStamped st t u × (d ≡ record c { status = u })) × Is c s)
  unfolding set_change_pod_status
  Leads-set c t st = Leads-bind _ _ (Leads-now c) (λ time.
      Leads-bind _ _ (Leads-sample _ (serves.keeps_now c))
        (λ unix. Leads-pure _ (λ s p. ((_, (time, unix, refl), refl), p))))

  pub Leads-finished :
      (c : ChangePod)
      → Leads (Is c) (handle_finished_change_pod api c) (λ _ s.
        Has Is c (λ t. IsStamped execute_done (record c.status { message = c.status.status }) t) s)
  unfolding handle_finished_change_pod set_change_pod_done_status
  Leads-finished c =
      Leads-bind _ _ (Leads-set c (record c.status { message = c.status.status }) execute_done)
        (λ d. Leads-some _ (λ (u, h, e). rw e (Leads-update_status c u _ h)))

  -- The service is reached in the first round, and its answer is accepted.
  Leads-do_post :
      (c : ChangePod) (uri : String) (request : Request)
      → Leads
          (Is c)
          (do_post api uri request)
          (λ result s. ((result.success ≡ true) × (node_id_of result.domain ≡ some id)) × Is c s)
  unfolding do_post post_loop
  Leads-do_post c uri request = Leads-bind _ _ (Leads-sample _ (serves.keeps_now c)) (λ time.
      Leads-bind _ _
        (Leads-attempt _ _ (Leads-write _ _ (serves.is_reached c _ _ _))
          (λ resp. Leads-pure resp (λ s p. p)))
        (λ resp. Leads-bind _ _ (Leads-ask _ (serves.is_accepted c resp)) (λ text.
          Leads-some _
            (λ (result, e, good, node). Leads-ask _ (λ s p. (result, e, ((good, node), p)))))))

  Leads-service :
      (c : ChangePod) (request : Request) (action : String)
      → Leads
          (Is c)
          (service_template api request action)
          (λ result s. (node_id_of result.domain ≡ some id) × Is c s)
  unfolding service_template
  Leads-service c request action = Leads-bind _ _ (Leads-do_post c _ request) (λ result.
      Leads-some _ (λ (good, node).
        Leads-if result.success _ _ (λ _. Leads-pure result (λ s p. (node, p))) (λ bad. absurd cc)))

  Leads-submit_start :
      (c : ChangePod)
      → Leads
          (Is c)
          (submit_change_start_notify_and_get_node_id api c)
          (λ node s. (node ≡ id) × Is c s)
  unfolding submit_change_start_notify_and_get_node_id submit_change_start_notify
  Leads-submit_start c =
      Leads-bind _ _ (Leads-service c _ "submitChangeExecBatchStartNotify")
        (λ result. Leads-some _ (λ e. rw e (Leads-pure id (λ s p. (refl, p)))))

  -- A status that is set, and then noted with the times of the submission.
  Leads-noted :
      (note : String → ℤ → ChangePodStatus → ChangePodStatus)
      → ((time : String) (unix : ℤ) (t : ChangePodStatus)
          → ((note time unix t).status ≡ t.status)
            × ((note time unix t).change_pod_id ≡ t.change_pod_id))
      → (c : ChangePod) (t : ChangePodStatus) (st : ChangePodState)
      → Leads
          (Is c)
          (do
            d ← set_change_pod_status api st (record c { status = t })
            time ← get_now_time api
            unix ← sample api.now
            pure (record d { status = note time unix d.status }))
          (λ d s.
            ((u : ChangePodStatus) × IsSubmitted st t u × (d ≡ record c { status = u })) × Is c s)
  Leads-noted note keeps c t st = Leads-bind _ _ (Leads-set c t st) (λ d.
      Leads-some _ (λ (u, (time, unix, h), e). Leads-bind _ _ (Leads-now c) (λ time'.
        Leads-bind _ _ (Leads-sample _ (serves.keeps_now c)) (λ unix'.
          let v = note time' unix' d.status in
          let (a, b) = keeps time' unix' d.status in
          let same : d.status ≡ u = ap (λ (x : ChangePod). x.status) e in
          let renoted : ChangePod → ChangePod = λ x. record x { status = v } in
          Leads-pure _ (λ s p. (
            (
              v,
              (
                a ∙ ap (λ (x : ChangePodStatus). x.status) (same ∙ h),
                b ∙ ap (λ (x : ChangePodStatus). x.change_pod_id) (same ∙ h),
              ),
              ap renoted e,
            ),
            p,
          ))))))

  -- What is written once the service accepted a change pod.
  Leads-submitted :
      (set : ChangePod → Exec S ChangePod) (c : ChangePod) (t : ChangePodStatus)
      (st : ChangePodState)
      → Leads (Is c) (set (record c { status = t })) (λ d s.
        ((u : ChangePodStatus) × IsSubmitted st t u × (d ≡ record c { status = u })) × Is c s)
      → Leads
          (Is c)
          (set (record c { status = t }) >>= λ marked. update_status api marked)
          (λ _ s. Has Is c (IsSubmitted st t) s)
  Leads-submitted set c t st h =
      Leads-bind _ _ h (λ d. Leads-some _ (λ (u, k, e). rw e (Leads-update_status c u _ k)))

  pub Leads-pre_wait :
      (c : ChangePod)
      → Leads
          (Is c)
          (pre_wait_handle api c)
          (λ _ s. Has Is c (IsSubmitted pre_submitted (record c.status { change_pod_id = id })) s)
  unfolding pre_wait_handle pre_wait_answered set_change_pod_pre_submitted_status
  Leads-pre_wait c = Leads-attempt _ _ (Leads-submit_start c) (λ node. Leads-some _ (λ n. rw n (
      Leads-submitted (set_change_pod_pre_submitted_status api) c
        (record c.status { change_pod_id = id }) pre_submitted
        (Leads-noted _ (λ time unix t. (refl, refl)) c (record c.status { change_pod_id = id })
          pre_submitted))))

  pub Leads-post_wait :
      (c : ChangePod)
      → Leads
          (Is c)
          (post_wait_handle api c)
          (λ _ s. Has Is c (IsSubmitted post_submitted c.status) s)
  unfolding post_wait_handle post_wait_answered set_change_pod_post_submitted_status
      submit_change_finish_notify
  Leads-post_wait c = Leads-attempt _ _ (Leads-service c _ "submitChangeFinishNotify") (λ result.
      Leads-some _ (λ n.
        (Leads-submitted (set_change_pod_post_submitted_status api) c c.status post_submitted
          (Leads-noted _ (λ time unix t. (refl, refl)) c c.status post_submitted))))
