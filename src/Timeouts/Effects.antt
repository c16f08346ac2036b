-- ===== src/Timeouts/Effects.antt =====
-- What a round of the two timeout loops writes.
use altershield_operator.Base.{
  String, ◌≡◌, refl, Bool, true, false, not, List, [], ◌∷◌, All, All-every, ◌⊎◌, inl, inr, is_nil,
  ◌<◌, ℕ, ◌+◌, ◌^◌, ltb, arith,
}
use altershield_operator.Base.Int.{ℤ, pos, sub64_small}
use altershield_operator.Calls.{Call, update_change_pod_status, update_workload_status}
use altershield_operator.Exec.Issues.{
  Issues, Returns, Returns-bind, Returns-pure, Returns-split, Issues-bind, Issues-bind_knowing,
  Issues-if, Issues-pure, Issues-write, Issues-ask, Issues-sample, Issues-attempt,
}
use altershield_operator.Client.{Client}
use altershield_operator.Types.{ChangePod, ChangeWorkload}
use altershield_operator.Types.State.{
  pre_timeout, post_timeout, is_pre_submitted, is_post_submitted, is_running,
  time_out_pre_threshold,
}
use altershield_operator.ChangePods.Status.{get_now_time}
use altershield_operator.Timeouts.{
  is_over, time_out_change_pod, is_over_before, is_over_after, pre_timeouts, post_timeouts,
  change_pod_timeout_round, time_out_workload, is_workload_over, workload_timeouts,
  change_workload_timeout_round, listed,
}

-- A change pod that the service did not answer in time, at a time that the clock gave.
abbrev pub IsLate : ChangePod → ℤ → ChangePod → Type 0
IsLate c now after =
    (after.spec ≡ c.spec)
    × (after.status.pod_results ≡ c.status.pod_results)
    × ((is_pre_submitted c.status.status ≡ true)
          × (is_over now c.status.pre_submit_time_unix c.status.pre_timeout_threshold ≡ true)
          × (after.status.status ≡ pre_timeout)
        ⊎ (is_post_submitted c.status.status ≡ true)
          × (is_over now c.status.post_submit_time_unix c.status.post_timeout_threshold ≡ true)
          × (after.status.status ≡ post_timeout))

abbrev pub TimesOut : Call → Type 0
TimesOut (update_change_pod_status after) = (c : ChangePod) × (now : ℤ) × IsLate c now after
TimesOut _ = ⊥

-- A running workload that waited too long with pods to check.
abbrev pub IsStuck : ChangeWorkload → ℤ → ChangeWorkload → Type 0
IsStuck w now after =
    (is_running w.status.status ≡ true)
    × (is_nil w.status.defense_preparing_pods ≡ false)
    × (is_over now w.status.entry_time_unix w.spec.wait_time_threshold ≡ true)
    × (after.spec ≡ w.spec)
    × (after.status.status ≡ time_out_pre_threshold)

abbrev pub GivesUp : Call → Type 0
GivesUp (update_workload_status after) = (w : ChangeWorkload) × (now : ℤ) × IsStuck w now after
GivesUp _ = ⊥

not-false : (b : Bool) → not b ≡ false → b ≡ true
not-false true h = refl
not-false false h = absurd cc

-- Between non-negative times the test is the comparison of the sum, for no such difference wraps.
pub is_over_lem :
    (now since threshold : ℕ)
    → now < 2 ^ 63
    → since < 2 ^ 63
    → is_over (pos now) (pos since) (pos threshold) ≡ ltb (since + threshold) now
unfolding is_over
is_over_lem now since threshold h k = rw (sub64_small now since h k) (ground arith)

times_out :
    (c : ChangePod) (now : ℤ) (after : ChangePod)
    → IsLate c now after
    → TimesOut (update_change_pod_status after)
times_out c now after h = (c, now, h)

module _ {S : Type 0} (api : Client S) where
  Issues-time_out_change_pod :
      {Q : Call → Type 0} (to : _) (c : ChangePod)
      → ((time : String) (unix : ℤ)
          → Q (
              update_change_pod_status (record c {
                status = record c.status {
                  status = to;
                  update_time = time;
                  update_time_unix = unix;
                };
              })))
      → Issues Q (time_out_change_pod api to c)
  unfolding time_out_change_pod get_now_time
  Issues-time_out_change_pod to c q = Issues-bind _ _ (Issues-sample _) (λ time.
      Issues-bind _ _ (Issues-sample _) (λ unix.
        Issues-bind _ _ (Issues-attempt _ (Issues-write _ _ (q time unix))) (λ _. Issues-pure tt)))

  Issues-is_over_before : {Q : Call → Type 0} (c : ChangePod) → Issues Q (is_over_before api c)
  unfolding is_over_before
  Issues-is_over_before c =
      Issues-if (not (is_pre_submitted c.status.status)) _ _ (λ _. Issues-pure false)
        (λ _. Issues-bind _ _ (Issues-sample _) (λ now. Issues-pure _))

  Returns-is_over_before :
      (c : ChangePod)
      → Returns
          (λ over.
            over ≡ true
            → (is_pre_submitted c.status.status ≡ true)
              × ((now : ℤ) × (is_over now c.status.pre_submit_time_unix
                      c.status.pre_timeout_threshold
                    ≡ true)))
          (is_over_before api c)
  unfolding is_over_before
  Returns-is_over_before c =
      Returns-split (not (is_pre_submitted c.status.status)) _ _
        (λ _. Returns-pure false (λ e. absurd cc))
        (λ p. Returns-bind _ _ (λ now. Returns-pure _ (λ e. (not-false _ p, (now, e)))))

  -- A loop over change pods writes only what is allowed for a late one among them.
  pub Issues-pre_timeouts :
      {Q : Call → Type 0} (cs : List ChangePod)
      → All
          (λ c.
            (now : ℤ) (after : ChangePod) → IsLate c now after → Q (update_change_pod_status after))
          cs
      → Issues Q (pre_timeouts api cs)
  unfolding pre_timeouts
  Issues-pre_timeouts [] h = Issues-pure tt
  Issues-pre_timeouts (c ∷ cs) h =
      Issues-bind_knowing _ _ (Issues-is_over_before c) (Returns-is_over_before c) (λ over r.
        Issues-bind _ _
          (Issues-if over _ _
            (λ e.
              let (p, (now, q)) = r e in
              Issues-time_out_change_pod pre_timeout c
                (λ time unix. h.0 now _ (refl, refl, inl (p, q, refl))))
            (λ _. Issues-pure tt))
          (λ _. Issues-pre_timeouts cs h.1))

  Issues-is_over_after : {Q : Call → Type 0} (c : ChangePod) → Issues Q (is_over_after api c)
  unfolding is_over_after
  Issues-is_over_after c =
      Issues-if (not (is_post_submitted c.status.status)) _ _ (λ _. Issues-pure false)
        (λ _. Issues-bind _ _ (Issues-sample _) (λ now. Issues-pure _))

  Returns-is_over_after :
      (c : ChangePod)
      → Returns
          (λ over.
            over ≡ true
            → (is_post_submitted c.status.status ≡ true)
              × ((now : ℤ) × (is_over now c.status.post_submit_time_unix
                      c.status.post_timeout_threshold
                    ≡ true)))
          (is_over_after api c)
  unfolding is_over_after
  Returns-is_over_after c =
      Returns-split (not (is_post_submitted c.status.status)) _ _
        (λ _. Returns-pure false (λ e. absurd cc))
        (λ p. Returns-bind _ _ (λ now. Returns-pure _ (λ e. (not-false _ p, (now, e)))))

  pub Issues-post_timeouts :
      {Q : Call → Type 0} (cs : List ChangePod)
      → All
          (λ c.
            (now : ℤ) (after : ChangePod) → IsLate c now after → Q (update_change_pod_status after))
          cs
      → Issues Q (post_timeouts api cs)
  unfolding post_timeouts
  Issues-post_timeouts [] h = Issues-pure tt
  Issues-post_timeouts (c ∷ cs) h =
      Issues-bind_knowing _ _ (Issues-is_over_after c) (Returns-is_over_after c) (λ over r.
        Issues-bind _ _
          (Issues-if over _ _
            (λ e.
              let (p, (now, q)) = r e in
              Issues-time_out_change_pod post_timeout c
                (λ time unix. h.0 now _ (refl, refl, inr (p, q, refl))))
            (λ _. Issues-pure tt))
          (λ _. Issues-post_timeouts cs h.1))

  -- Whatever the server and the clock answer, a round of the change pod timeouts writes nothing but
  -- statuses of change pods that are late: submitted before the change and over their first threshold,
  -- which become timed out before it, and the same after the change. Specification and results are kept.
  pub change_pod_timeout_round-TimesOut : Issues TimesOut (change_pod_timeout_round api)
  unfolding change_pod_timeout_round
  change_pod_timeout_round-TimesOut = Issues-bind _ _ (Issues-attempt _ (Issues-ask _)) (λ pre.
      Issues-bind _ _ (Issues-attempt _ (Issues-ask _)) (λ post.
        Issues-bind _ _ (Issues-pre_timeouts (listed pre) (All-every _ times_out _))
          (λ _. Issues-post_timeouts (listed post) (All-every _ times_out _))))

  Returns-is_workload_over :
      (w : ChangeWorkload)
      → Returns
          (λ over.
            over ≡ true
            → (is_running w.status.status ≡ true)
              × (is_nil w.status.defense_preparing_pods ≡ false)
              × ((now : ℤ) × (is_over now w.status.entry_time_unix w.spec.wait_time_threshold
                    ≡ true)))
          (is_workload_over api w)
  unfolding is_workload_over
  Returns-is_workload_over w =
      Returns-split (not (is_running w.status.status)) _ _
        (λ _. Returns-pure false (λ e. absurd cc))
        (λ p.
          Returns-split (is_nil w.status.defense_preparing_pods) _ _
            (λ _. Returns-pure false (λ e. absurd cc))
            (λ q. Returns-bind _ _ (λ now. Returns-pure _ (λ e. (not-false _ p, q, (now, e))))))

  Issues-workload_timeouts : (ws : List ChangeWorkload) → Issues GivesUp (workload_timeouts api ws)
  unfolding workload_timeouts time_out_workload is_workload_over get_now_time
  Issues-workload_timeouts [] = Issues-pure tt
  Issues-workload_timeouts (w ∷ ws) =
      Issues-bind_knowing _ _
        (Issues-if (not (is_running w.status.status)) _ _ (λ _. Issues-pure false)
          (λ _.
            Issues-if (is_nil w.status.defense_preparing_pods) _ _ (λ _. Issues-pure false)
              (λ _. Issues-bind _ _ (Issues-sample _) (λ now. Issues-pure _))))
        (Returns-is_workload_over w)
        (λ over h.
          Issues-bind _ _
            (Issues-if over _ _
              (λ e.
                let (running, some_pods, (now, late)) = h e in
                Issues-bind _ _ (Issues-sample _) (λ time.
                  Issues-bind _ _ (Issues-sample _) (λ unix.
                    Issues-bind _ _
                      (Issues-attempt _
                        (Issues-write _ _ (w, now, (running, some_pods, late, refl, refl))))
                      (λ _. Issues-pure tt))))
              (λ _. Issues-pure tt))
            (λ _. Issues-workload_timeouts ws))

  -- Whatever the server and the clock answer, a round of the workload timeouts writes nothing but the
  -- statuses of running workloads that are over their threshold and list pods to check.
  pub change_workload_timeout_round-GivesUp : Issues GivesUp (change_workload_timeout_round api)
  unfolding change_workload_timeout_round
  change_workload_timeout_round-GivesUp =
      Issues-bind _ _ (Issues-attempt _ (Issues-ask _))
        (λ reply. Issues-workload_timeouts (listed reply))
