-- ===== src/Timeouts/Closing.antt =====
-- The tests and the writes of the timeout loops, and what a loop makes of a list of objects.
use altershield_operator.Base.{
  String, ◌≡◌, refl, ap, ◌∙◌, Bool, true, false, ◌&&◌, not, List, [], ◌∷◌, ◌⊎◌, inl, inr, is_nil,
  if◌then◌else◌, Bool-cases,
}
use altershield_operator.Base.Int.{ℤ}
use altershield_operator.Calls.{Call, update_change_pod_status, update_workload_status}
use altershield_operator.ChangePods.Status.{get_now_time}
use altershield_operator.Client.{Client}
use altershield_operator.Exec.{
  Reply, Reply-cases, ok, World, Exec, pure, ask, write, attempt, ◌>>=◌, ◌>>◌,
}
use altershield_operator.Timeouts.{
  is_over, time_out_change_pod, is_over_before, is_over_after, time_out_workload, is_workload_over,
}
use altershield_operator.Types.{ChangePod, ChangeWorkload}
use altershield_operator.Types.State.{
  ChangePodState, time_out_pre_threshold, is_pre_submitted, is_post_submitted, is_running,
}
use altershield_operator.Utils.Constants.{time_layout}

-- When the two stages of a change pod and a workload are over, and the write that then times it out.
abbrev pub is_late_before : ChangePod → ℤ → Bool
is_late_before c now =
    is_pre_submitted c.status.status
    && is_over now c.status.pre_submit_time_unix c.status.pre_timeout_threshold

abbrev pub is_late_after : ChangePod → ℤ → Bool
is_late_after c now =
    is_post_submitted c.status.status
    && is_over now c.status.post_submit_time_unix c.status.post_timeout_threshold

abbrev pub is_late_workload : ChangeWorkload → ℤ → Bool
is_late_workload w now =
    (is_running w.status.status && not (is_nil w.status.defense_preparing_pods))
    && is_over now w.status.entry_time_unix w.spec.wait_time_threshold

abbrev closed_pod : ChangePodState → ChangePod → String → ℤ → ChangePod
closed_pod to c time unix = record c {
  status = record c.status { status = to; update_time = time; update_time_unix = unix };
}

abbrev closed_workload : ChangeWorkload → String → ℤ → ChangeWorkload
closed_workload w time unix = record w {
  status = record w.status {
    status = time_out_pre_threshold;
    update_time = time;
    update_time_unix = unix;
  };
}

abbrev pub closed_as : ChangePodState → ChangePod → String → ℤ → Call
closed_as to c time unix = update_change_pod_status (closed_pod to c time unix)

abbrev pub given_up : ChangeWorkload → String → ℤ → Call
given_up w time unix = update_workload_status (closed_workload w time unix)

module _ {S : Type 0} (api : Client S) where
  -- The clock gives this time in some state, and this text.
  abbrev pub IsRead : ℤ → Type 0
  IsRead now = (s : S) × ((api.now s).0 ≡ now)

  abbrev pub IsReadText : String → Type 0
  IsReadText time = (s : S) × ((api.now_text time_layout s).0 ≡ time)

  -- The call is issued, with times that the clock gave.
  abbrev pub IsIssued : (String → ℤ → Call) → List Call → List Call → Type 0
  IsIssued call before after =
      (time : String) × (unix : ℤ) × IsReadText time
      × IsRead unix
      × (after ≡ call time unix ∷ before)

  -- One object: where it is late at a time that the clock gave, its call is issued, else none.
  abbrev pub IsStep : (ℤ → Bool) → (String → ℤ → Call) → List Call → List Call → Type 0
  IsStep late call before after =
      (now : ℤ) × IsRead now
      × (((late now ≡ true) × IsIssued call before after) ⊎ ((late now ≡ false) × (after ≡ before)))

  -- The objects of a list, one after the other.
  abbrev pub Closes :
      {A : Type 0}
      → (A → ℤ → Bool)
      → (A → String → ℤ → Call)
      → List A
      → List Call
      → List Call
      → Type 0
  Closes late call [] before after = after ≡ before
  Closes late call (c ∷ cs) before after =
      (middle : List Call) × IsStep (late c) (call c) before middle
      × Closes late call cs middle after

  abbrev IsTest : (ℤ → Bool) → Exec S Bool → Type 0
  IsTest late test =
      (w : World S)
      → (x : Bool) × ((test w).0 ≡ ok x)
        × ((test w).1.issued ≡ w.issued)
        × ((now : ℤ) × IsRead now × (late now ≡ x))

  abbrev IsClosing : (String → ℤ → Call) → Exec S (Unit {0}) → Type 0
  IsClosing call close =
      (w : World S) → ((close w).0 ≡ ok tt) × IsIssued call w.issued (close w).1.issued

  pub step :
      {late : ℤ → Bool} {call : String → ℤ → Call} (test : Exec S Bool)
      (close rest : Exec S (Unit {0}))
      → IsTest late test
      → IsClosing call close
      → (w : World S)
      → (v : World S) × (((test >>= λ over. (if over then close else pure tt) >> rest) w) ≡ rest v)
        × IsStep late call w.issued v.issued
  unfolding ◌>>=◌
  step {call} test close rest tests closes w =
      let (x, e, same, (now, read, late)) = tests w in
      let (ends, (time, unix, t, u, issued)) = closes (test w).1 in
      elim (Bool-cases x) [
        | inl k ↦ (
          (close (test w).1).1,
          rw (e, k, ends) refl,
          (
            now,
            read,
            inl (late ∙ k, (time, unix, t, u, issued ∙ ap (λ l. call time unix ∷ l) same)),
          ),
        )
        | inr k ↦ ((test w).1, rw (e, k) refl, (now, read, inr (late ∙ k, same)))
      ]

  -- A write whose error is only logged.
  pub logged :
      {A : Type 0} (c : Call) (f : S → Reply A × S) (w : World S)
      → (((attempt (write c f) >>= λ _. pure tt) w).0 ≡ ok tt)
        × (((attempt (write c f) >>= λ _. pure tt) w).1.issued ≡ c ∷ w.issued)
  unfolding ◌>>=◌
  logged c f w = elim (Reply-cases (f w.server).0) [
    | inl (a, e) ↦ (rw e refl, rw e refl)
    | inr (x, e) ↦ (rw e refl, rw e refl)
  ]

  -- A list that is read; its error is only logged.
  pub reads :
      {A B : Type 0} (f : S → Reply A × S) (g : Reply A → Exec S B) (w : World S)
      → (attempt (ask f) >>= g) w ≡ g (f w.server).0 (record w { server = (f w.server).1 })
  unfolding ◌>>=◌
  reads f g w = elim (Reply-cases (f w.server).0) [
    | inl (a, e) ↦ rw e refl
    | inr (x, e) ↦ rw e refl
  ]

  pub IsClosing-change_pod :
      (to : ChangePodState) (c : ChangePod)
      → IsClosing (closed_as to c) (time_out_change_pod api to c)
  unfolding time_out_change_pod get_now_time ◌>>=◌
  IsClosing-change_pod to c w =
      let (time, s) = api.now_text time_layout w.server in
      let (unix, t) = api.now s in
      let (ends, issued) =
        logged (closed_as to c time unix) (api.update_change_pod_status (closed_pod to c time unix))
          (record w { server = t }) in
      (ends, (time, unix, (w.server, refl), (s, refl), issued))

  pub IsClosing-workload : (o : ChangeWorkload) → IsClosing (given_up o) (time_out_workload api o)
  unfolding time_out_workload get_now_time ◌>>=◌
  IsClosing-workload o w =
      let (time, s) = api.now_text time_layout w.server in
      let (unix, t) = api.now s in
      let (ends, issued) =
        logged (given_up o time unix) (api.update_workload_status (closed_workload o time unix))
          (record w { server = t }) in
      (ends, (time, unix, (w.server, refl), (s, refl), issued))

  pub IsTest-before : (c : ChangePod) → IsTest (is_late_before c) (is_over_before api c)
  unfolding is_over_before ◌>>=◌
  IsTest-before c w = elim (Bool-cases (is_pre_submitted c.status.status)) [
    | inl e ↦ (
      is_over (api.now w.server).0 c.status.pre_submit_time_unix c.status.pre_timeout_threshold,
      rw e refl,
      rw e refl,
      ((api.now w.server).0, (w.server, refl), rw e refl),
    )
    | inr e ↦ (false, rw e refl, rw e refl, ((api.now w.server).0, (w.server, refl), rw e refl))
  ]

  pub IsTest-after : (c : ChangePod) → IsTest (is_late_after c) (is_over_after api c)
  unfolding is_over_after ◌>>=◌
  IsTest-after c w = elim (Bool-cases (is_post_submitted c.status.status)) [
    | inl e ↦ (
      is_over (api.now w.server).0 c.status.post_submit_time_unix c.status.post_timeout_threshold,
      rw e refl,
      rw e refl,
      ((api.now w.server).0, (w.server, refl), rw e refl),
    )
    | inr e ↦ (false, rw e refl, rw e refl, ((api.now w.server).0, (w.server, refl), rw e refl))
  ]

  pub IsTest-workload : (o : ChangeWorkload) → IsTest (is_late_workload o) (is_workload_over api o)
  unfolding is_workload_over ◌>>=◌
  IsTest-workload o w = elim (Bool-cases (is_running o.status.status)) [
    | inl e ↦ elim (Bool-cases (is_nil o.status.defense_preparing_pods)) [
      | inl n ↦ (
        false,
        rw (e, n) refl,
        rw (e, n) refl,
        ((api.now w.server).0, (w.server, refl), rw (e, n) refl),
      )
      | inr n ↦ (
        is_over (api.now w.server).0 o.status.entry_time_unix o.spec.wait_time_threshold,
        rw (e, n) refl,
        rw (e, n) refl,
        ((api.now w.server).0, (w.server, refl), rw (e, n) refl),
      )
    ]
    | inr e ↦ (false, rw e refl, rw e refl, ((api.now w.server).0, (w.server, refl), rw e refl))
  ]
