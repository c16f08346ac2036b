-- ===== src/Timeouts/Exact.antt =====
-- What a round of the two timeout loops writes, call by call.
use mathlib.Core.Path.{subst}
use altershield_operator.Base.{String, ◌≡◌, refl, ◌∙◌, sym, Bool, List, [], ◌∷◌}
use altershield_operator.Base.Int.{ℤ}
use altershield_operator.Calls.{Call}
use altershield_operator.Client.{Client}
use altershield_operator.Exec.{Reply, Outcome, ok, World, pure, ◌>>=◌, ◌>>◌}
use altershield_operator.Timeouts.{
  listed, time_out_change_pod, is_over_before, is_over_after, pre_timeouts, post_timeouts,
  change_pod_timeout_round, time_out_workload, is_workload_over, workload_timeouts,
  change_workload_timeout_round,
}
use altershield_operator.Types.{ChangePod, ChangeWorkload}
use altershield_operator.Types.State.{
  ChangePodState, pre_submitted, post_submitted, pre_timeout, post_timeout, running,
  change_pod_text, workload_text,
}
use altershield_operator.Utils.Constants.{change_pod_field_status, change_workload_field_status}
use altershield_operator.Timeouts.Closing.{
  is_late_before, is_late_after, is_late_workload, closed_as, given_up, Closes, step, reads,
  IsClosing-change_pod, IsClosing-workload, IsTest-before, IsTest-after, IsTest-workload,
}

module _ {S : Type 0} (api : Client S) where
  -- The action ends without an error, and what it issued closes the objects.
  abbrev pub ClosesAll :
      {A : Type 0}
      → (A → ℤ → Bool)
      → (A → String → ℤ → Call)
      → List A
      → World S
      → Outcome (Unit {0}) × World S
      → Type 0
  ClosesAll late call cs w (o, v) = (o ≡ ok tt) × Closes api late call cs w.issued v.issued

  pre_timeouts-ClosesAll :
      (cs : List ChangePod) (w : World S)
      → ClosesAll is_late_before (closed_as pre_timeout) cs w (pre_timeouts api cs w)
  unfolding pre_timeouts pure
  pre_timeouts-ClosesAll [] w = (refl, refl)
  pre_timeouts-ClosesAll (c ∷ cs) w =
      let (v, e, stepped) =
        step api (is_over_before api c) (time_out_change_pod api pre_timeout c)
          (pre_timeouts api cs) (IsTest-before api c) (IsClosing-change_pod api pre_timeout c) w in
      let (ends, closes) = pre_timeouts-ClosesAll cs v in rw e (ends, (v.issued, stepped, closes))

  post_timeouts-ClosesAll :
      (cs : List ChangePod) (w : World S)
      → ClosesAll is_late_after (closed_as post_timeout) cs w (post_timeouts api cs w)
  unfolding post_timeouts pure
  post_timeouts-ClosesAll [] w = (refl, refl)
  post_timeouts-ClosesAll (c ∷ cs) w =
      let (v, e, stepped) =
        step api (is_over_after api c) (time_out_change_pod api post_timeout c)
          (post_timeouts api cs) (IsTest-after api c) (IsClosing-change_pod api post_timeout c) w in
      let (ends, closes) = post_timeouts-ClosesAll cs v in rw e (ends, (v.issued, stepped, closes))

  workload_timeouts-ClosesAll :
      (os : List ChangeWorkload) (w : World S)
      → ClosesAll is_late_workload given_up os w (workload_timeouts api os w)
  unfolding workload_timeouts pure
  workload_timeouts-ClosesAll [] w = (refl, refl)
  workload_timeouts-ClosesAll (o ∷ os) w =
      let (v, e, stepped) =
        step api (is_workload_over api o) (time_out_workload api o) (workload_timeouts api os)
          (IsTest-workload api o) (IsClosing-workload api o) w in
      let (ends, closes) = workload_timeouts-ClosesAll os v in
      rw e (ends, (v.issued, stepped, closes))

  -- What the server lists in the one status, and then in the other.
  abbrev pub listed_by : ChangePodState → S → Reply (List ChangePod) × S
  listed_by st = api.list_change_pods change_pod_field_status (change_pod_text st)

  abbrev pub listed_running : S → Reply (List ChangeWorkload) × S
  listed_running = api.list_workloads_by change_workload_field_status (workload_text running)

  -- Both lists are closed, first the one, then the other.
  abbrev pub ClosesBoth : World S → Outcome (Unit {0}) × World S → Type 0
  ClosesBoth w (o, v) =
      (o ≡ ok tt)
      × ((middle : List Call) × Closes api is_late_before (closed_as pre_timeout)
            (listed (listed_by pre_submitted w.server).0) w.issued middle
          × Closes api is_late_after (closed_as post_timeout)
              (listed (listed_by post_submitted (listed_by pre_submitted w.server).1).0) middle
              v.issued)

  both_timeouts :
      (pre post : List ChangePod) (w : World S)
      → let (o, v) = (pre_timeouts api pre >> post_timeouts api post) w in
        (o ≡ ok tt)
        × ((middle : List Call) × Closes api is_late_before
              (closed_as pre_timeout)
              pre
              w.issued
              middle
            × Closes api is_late_after (closed_as post_timeout) post middle v.issued)
  unfolding ◌>>=◌
  both_timeouts pre post w =
      let (ends, before) = pre_timeouts-ClosesAll pre w in
      let v = (pre_timeouts api pre w).1 in
      let (ends', after) = post_timeouts-ClosesAll post v in
      rw ends (ends', (v.issued, before, after))

  -- A round of either loop reaches its end whatever the server and the clock answer, also when a list or a
  -- write fails. It writes exactly one status for each listed object that is late at the time that the clock
  -- gives for it, and nothing for any other, in the order of the lists: first the change pods submitted
  -- before the change, then those submitted after it, and the running workloads in the round of the other
  -- loop. A list that fails is empty.
  pub timeout_rounds-AreExact :
      (w : World S)
      → ClosesBoth w (change_pod_timeout_round api w)
        × ClosesAll is_late_workload given_up
            (listed (listed_running w.server).0)
            w
            (change_workload_timeout_round api w)
  unfolding change_pod_timeout_round change_workload_timeout_round
  timeout_rounds-AreExact w =
      let (pre, s) = listed_by pre_submitted w.server in
      let (post, t) = listed_by post_submitted s in
      let (os, u) = listed_running w.server in
      (
        subst (ClosesBoth w) (sym (reads api _ _ w ∙ reads api _ _ (record w { server = s })))
            (both_timeouts (listed pre) (listed post) (record w { server = t })),
        subst (ClosesAll is_late_workload given_up (listed os) w) (sym (reads api _ _ w))
            (workload_timeouts-ClosesAll (listed os) (record w { server = u })),
      )
