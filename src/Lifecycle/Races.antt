-- ===== src/Lifecycle/Races.antt =====
-- A callback that read a change pod before others moved it.
use altershield_operator.Base.{
  String, ◌≡◌, ◌≢◌, refl, ap, ◌∙◌, sym, Bool, true, false, not, [], ◌∷◌, if◌then◌else◌,
}
use altershield_operator.Callback.{post_stage, patch_status, judged}
use altershield_operator.ChangePods.Reconcile.{reconcile, dispatch}
use altershield_operator.Client.{Client}
use altershield_operator.Exec.{Exec, pure, ◌>>=◌, ◌>>◌}
use altershield_operator.Exec.Leads.{
  Answers, Leads, Leads-pure, Leads-sample, Leads-write, Leads-bind, Leads-attempt, Leads-has,
  Leads-some, Leads-caught, Leads-if, Leads-weaken, Leads-known,
}
use altershield_operator.Lifecycle.{Step}
use altershield_operator.Lifecycle.Server.{IsServing, Has, IsStamped, key_of}
use altershield_operator.Lifecycle.Batch.{Leads-now, Leads-finished}
use altershield_operator.Lifecycle.Completion.{Leads-reconcile}
use altershield_operator.Timeouts.{is_over, time_out_change_pod, is_over_after, post_timeouts}
use altershield_operator.Types.{ChangePod, ChangePodStatus}
use altershield_operator.Types.Opscloud.{CheckVerdict}
use altershield_operator.Types.State.{
  ChangePodState, post_submitted, post_timeout, post_finish, execute_done, is_post_submitted,
}

-- A merge patch writes each field in which its two objects differ over what is stored, whatever that is.
abbrev pub Merges : {S : Type 0} → Client S → (ChangePod → S → Type 0) → Type 0
Merges api Is =
    (stored before after : ChangePod)
    → before.status.status ≢ after.status.status
    → Answers (Is stored) (api.patch_change_pod_status before after)
        (λ e s. (e.status.status ≡ after.status.status) × Is e s)

apart : {x : Bool} → x ≡ true → x ≡ false → ⊥
apart p q = cc

Step-done : {st : ChangePodState} → ¬ (Step execute_done st)
Step-done s = elim s [ ]

module _ {S : Type 0} (api : Client S) (id : String) (Is : ChangePod → S → Type 0)
    (serves : IsServing api id Is) where
  Leads-time_out :
      (c : ChangePod)
      → Leads
          (Is c)
          (time_out_change_pod api post_timeout c)
          (λ _ s. Has Is c (IsStamped post_timeout c.status) s)
  unfolding time_out_change_pod
  Leads-time_out c = Leads-bind _ _ (Leads-now api id Is serves c) (λ time.
      Leads-bind _ _ (Leads-sample _ (serves.keeps_now c)) (λ unix.
        let t : ChangePodStatus = record c.status {
          status = post_timeout;
          update_time = time;
          update_time_unix = unix;
        } in
        Leads-attempt _ _ (Leads-write _ _ (serves.updates_status c (record c { status = t })))
          (λ stored. Leads-some _ (λ e. Leads-pure tt (λ s p. (t, (time, unix, refl), p))))))

  -- Every reading of the clock is past the deadline of the change pod.
  abbrev pub IsLate : ChangePod → Type 0
  IsLate c =
      (s : S)
      → is_over (api.now s).0 c.status.post_submit_time_unix c.status.post_timeout_threshold ≡ true

  Leads-is_over_after :
      (c : ChangePod)
      → c.status.status ≡ post_submitted
      → IsLate c
      → Leads (Is c) (is_over_after api c) (λ over s. (over ≡ true) × Is c s)
  unfolding is_over_after
  Leads-is_over_after c h late =
      Leads-if (not (is_post_submitted c.status.status)) _ _
        (λ no. absurd (apart no (ap (λ st. not (is_post_submitted st)) h)))
        (λ _.
          Leads-bind _ _
            (Leads-sample
              {Q = λ now s.
                (is_over now c.status.post_submit_time_unix c.status.post_timeout_threshold ≡ true)
                × Is c s}
              _ (λ s p. (late s, serves.keeps_now c s p)))
            (λ now. Leads-pure _ (λ s p. p)))

  Leads-post_timeouts :
      (c : ChangePod)
      → c.status.status ≡ post_submitted
      → IsLate c
      → Leads
          (Is c)
          (post_timeouts api (c ∷ []))
          (λ _ s. Has Is c (IsStamped post_timeout c.status) s)
  unfolding post_timeouts
  Leads-post_timeouts c h late = Leads-bind _ _ (Leads-is_over_after c h late) (λ over.
      Leads-known
        (λ x. (if x then time_out_change_pod api post_timeout c else pure tt) >>= λ _. pure tt) over
        true (Leads-bind _ _ (Leads-time_out c) (λ _. Leads-pure tt (λ s p. p))))

  -- Its reconciler closes a change pod that timed out.
  Leads-closed :
      (c : ChangePod) (t : ChangePodStatus)
      → t.status ≡ post_timeout
      → Leads
          (Is (record c { status = t }))
          (reconcile api (key_of c))
          (λ _ s. Has Is c (λ u. u.status ≡ execute_done) s)
  unfolding dispatch
  Leads-closed c t h =
      Leads-reconcile api id Is serves (record c { status = t }) post_timeout _ h
        (λ w n _.
          Leads-weaken _ (Leads-finished api id Is serves (record c { status = t }))
            (λ _ s q. (q.0, ap (λ (u : ChangePodStatus). u.status) q.1.2, q.2)))

  -- The rest of a callback that read `c` while it was submitted, whatever is stored by now.
  Leads-stale :
      (c stored : ChangePod) (v : CheckVerdict)
      → Merges api Is
      → c.status.status ≡ post_submitted
      → Leads
          (Is stored)
          (post_stage api v c)
          (λ _ s. (e : ChangePod) × (e.status.status ≡ post_finish) × Is e s)
  unfolding post_stage patch_status judged
  Leads-stale c stored v merges h =
      Leads-if (is_post_submitted c.status.status) _ _
        (λ _.
          Leads-bind _ _
            (Leads-bind _ _ (Leads-now api id Is serves stored) (λ time.
              Leads-bind _ _ (Leads-sample _ (serves.keeps_now stored)) (λ unix.
                Leads-caught _
                  (Leads-write _ _ (merges stored c _ (λ p. absurd (differ (sym h ∙ p))))))))
            (λ reply.
              Leads-has {P = λ a s. (a.status.status ≡ post_finish) × Is a s} _
                (λ a k. rw k (Leads-pure tt (λ s p. (a, p.0, p.1))))))
        (λ no. absurd (not_false (sym (ap is_post_submitted h) ∙ no)))
    where
      differ : post_submitted ≡ post_finish → ⊥
      differ p = cc

      not_false : true ≡ false → ⊥
      not_false p = cc

  -- What a late change pod goes through while a callback for it waits.
  abbrev pub times_out : ChangePod → Exec S (Unit {0})
  times_out c = do post_timeouts api (c ∷ []); reconcile api (key_of c)

  Leads-times_out :
      (c : ChangePod)
      → c.status.status ≡ post_submitted
      → IsLate c
      → Leads (Is c) (times_out c) (λ _ s. Has Is c (λ u. u.status ≡ execute_done) s)
  Leads-times_out c h late =
      Leads-bind _ _ (Leads-post_timeouts c h late)
        (λ _. Leads-has _ (λ t k. Leads-closed c t (ap (λ (u : ChangePodStatus). u.status) k.2)))

  -- A callback after the change that read a late change pod, and patches it only after the timeout loop and
  -- the reconciler took the change pod to its end, opens it again: against a server that keeps the change pod
  -- and merges patches, the change pod is done before that patch and finished, not done, after it, which no
  -- step of the abstract machine does.
  pub post_stage_reopens :
      (c : ChangePod) (v : CheckVerdict)
      → Merges api Is
      → c.status.status ≡ post_submitted
      → IsLate c
      → Leads (Is c) (times_out c) (λ _ s. Has Is c (λ u. u.status ≡ execute_done) s)
        × Leads
            (Is c)
            (times_out c >>= λ _. post_stage api v c)
            (λ _ s. (e : ChangePod) × (e.status.status ≡ post_finish) × Is e s)
        × ¬ (Step execute_done post_finish)
  post_stage_reopens c v merges h late = (
    Leads-times_out c h late,
    Leads-bind _ _ (Leads-times_out c h late)
        (λ _. Leads-has _ (λ u k. Leads-stale c _ v merges h)),
    Step-done,
  )
