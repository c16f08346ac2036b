-- ===== src/Lifecycle/Answered.antt =====
-- The callback of the publishing service against a server that keeps the change pod.
use altershield_operator.Base.{String, ◌≡◌, refl, true, [], ◌∷◌, ◌==◌}
use altershield_operator.Callback.{
  check_callback_handler, with_listed, first_found, stage, pre_stage, post_stage, patch_status,
  json, judged, check_type_batch,
}
use altershield_operator.Client.{Client}
use altershield_operator.Exec.{done}
use altershield_operator.Exec.Leads.{
  Leads, Leads-pure, Leads-sample, Leads-ask, Leads-write, Leads-bind, Leads-attempt, Leads-some,
  Leads-caught, Leads-known, Leads-weaken,
}
use altershield_operator.Lifecycle.Server.{IsServing, Has, IsStamped}
use altershield_operator.Lifecycle.Batch.{Leads-now}
use altershield_operator.Types.{ChangePod, ChangePodStatus}
use altershield_operator.Types.Opscloud.{CallbackWrapperRequest, CheckVerdict}
use altershield_operator.Types.State.{post_wait, post_finish, is_pre_submitted, is_post_submitted}

module _ {S : Type 0} (api : Client S) (id : String) (Is : ChangePod → S → Type 0)
    (serves : IsServing api id Is) where
  Leads-patched :
      (c d : ChangePod)
      → Leads (Is c) (patch_status api c d) (λ reply s.
        ((e : ChangePod) × (reply ≡ done e)) × Has Is c (IsStamped d.status.status d.status) s)
  unfolding patch_status
  Leads-patched c d = Leads-bind _ _ (Leads-now api id Is serves c) (λ time.
      Leads-bind _ _ (Leads-sample _ (serves.keeps_now c)) (λ unix.
        let t : ChangePodStatus = record d.status { update_time = time; update_time_unix = unix } in
        Leads-weaken _
          (Leads-caught {Q = λ e s. (e ≡ record c { status = t }) × Is (record c { status = t }) s}
            _ (Leads-write _ _ (serves.patches_status c (record d { status = t }))))
          (λ reply s q. ((q.0, q.1), (t, (time, unix, refl), q.2.1)))))

  Leads-json :
      (c : ChangePod) (T : ChangePodStatus → Type 0) (code : _)
      → Leads (Has Is c T) (json api code) (λ _ s. Has Is c T s)
  unfolding json
  Leads-json c T code = Leads-write _ _ (λ s p. (tt, refl, p))

  pub Leads-pre_stage :
      (c : ChangePod)
      → is_pre_submitted c.status.status ≡ true
      → Leads (Is c) (pre_stage api c) (λ _ s. Has Is c (IsStamped post_wait c.status) s)
  unfolding pre_stage
  Leads-pre_stage c h = rw h (
      Leads-bind _ _
        (Leads-patched c (record c { status = record c.status { status = post_wait } }))
        (λ reply. Leads-some _ (λ (e, k). rw k (Leads-json c _ 200))))

  pub Leads-post_stage :
      (c : ChangePod) (v : CheckVerdict)
      → is_post_submitted c.status.status ≡ true
      → Leads
          (Is c)
          (post_stage api v c)
          (λ _ s. Has Is c (IsStamped post_finish (judged v c).status) s)
  unfolding post_stage judged
  Leads-post_stage c v h = rw h (
      Leads-bind _ _ (Leads-patched c (judged v c))
        (λ reply. Leads-some _ (λ (e, k). rw k (Leads-pure tt (λ s p. p)))))

  -- The callback finds the change pod by the node that the service gave.
  pub Leads-callback :
      (c : ChangePod) (r : CallbackWrapperRequest) (R : S → Type 0)
      → (r.change_check_type == check_type_batch) ≡ true
      → r.callback_request.node_id ≡ id
      → c.status.change_pod_id ≡ id
      → Leads (Is c) (stage api r.callback_request c) (λ _ s. R s)
      → Leads (Is c) (check_callback_handler api (done r)) (λ _ s. R s)
  unfolding check_callback_handler with_listed first_found
  Leads-callback c r R b n i h =
      rw (b, n)
        (Leads-attempt _ _ (Leads-ask _ (serves.lists c i)) (λ cs.
          Leads-known (with_listed api r.callback_request) cs (c ∷ []) (
            Leads-bind {Q = λ d s. (d ≡ c) × Is c s} _ _ (Leads-pure c (λ s p. (refl, p)))
              (λ d. Leads-known (stage api r.callback_request) d c h))))
