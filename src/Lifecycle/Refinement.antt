-- ===== src/Lifecycle/Refinement.antt =====
-- How the writes of the status by the code relate to the steps of the abstract machine.
use mathlib.Core.Path.{subst}
use altershield_operator.Base.{
  ◌≡◌, refl, true, List, [], ◌∷◌, Any, Any-append, Any-All, ℕ, zero, suc, inl, inr,
}
use altershield_operator.Base.Int.{ℤ}
use altershield_operator.Calls.{Call, update_change_pod_status, patch_change_pod_status}
use altershield_operator.Exec.{Exec}
use altershield_operator.Exec.Issues.{Issues, Issues-weaken}
use altershield_operator.Client.{Client}
use altershield_operator.Types.{ChangePod, ChangeWorkload}
use altershield_operator.Types.Opscloud.{CallbackRequest}
use altershield_operator.Types.State.{
  ChangePodState, pre_submitted, post_submitted, is_pre_submitted, is_post_submitted,
}
use altershield_operator.ChangePods.Reconcile.{dispatch}
use altershield_operator.ChangePods.Transitions.{
  Edge, fill, start, start_failed, finish, finish_failed, finished, pre_timed_out, post_timed_out,
  pre_gave_up, post_gave_up, Follows, dispatch-Follows,
}
use altershield_operator.Callback.{stage}
use altershield_operator.Callback.Effects.{Answers, stage-Answers}
use altershield_operator.Timeouts.{pre_timeouts, post_timeouts}
use altershield_operator.Timeouts.Effects.{IsLate, Issues-pre_timeouts, Issues-post_timeouts}
use altershield_operator.Lifecycle.{
  Step, fills, starts, start_fails, start_answered, start_times_out, finishes, finish_fails,
  finish_answered, finish_times_out, closes_finish, closes_pre_timeout, closes_post_timeout,
  closes_pre_failed, closes_post_failed, Run, here, next,
}

-- A write of the given status.
abbrev pub Writes : ChangePodState → Call → Type 0
Writes to (update_change_pod_status d) = d.status.status ≡ to
Writes to (patch_change_pod_status a d) = d.status.status ≡ to
Writes to _ = ⊥

-- One of the calls writes it.
abbrev pub Wrote : ChangePodState → List Call → Type 0
Wrote to calls = Any (Writes to) calls

-- The calls that an action issues from a state of the outside.
abbrev pub calls_from : {S A : Type 0} → S → Exec S A → List Call
calls_from s m = (m (record { server = s; issued = [] })).1.issued

-- The code moves a change pod that it read in one status to another: its controller, the callback of
-- the publishing service, or one of the two loops over the change pods that were submitted.
pub data Move {S : Type 0} (api : Client S) : ChangePodState → ChangePodState → Type 0 where
  reconciled :
      (c : ChangePod) (workload : ChangeWorkload) (s : S) (to : ChangePodState)
      → Wrote to (calls_from s (dispatch api c.status.status c workload))
      → Move api c.status.status to
  called_back :
      (c : ChangePod) (r : CallbackRequest) (s : S) (to : ChangePodState)
      → Wrote to (calls_from s (stage api r c))
      → Move api c.status.status to
  timed_out_before :
      (c : ChangePod) (s : S) (to : ChangePodState)
      → Wrote to (calls_from s (pre_timeouts api (c ∷ [])))
      → Move api c.status.status to
  timed_out_after :
      (c : ChangePod) (s : S) (to : ChangePodState)
      → Wrote to (calls_from s (post_timeouts api (c ∷ [])))
      → Move api c.status.status to

-- Some moves, one after the other, each from the status that the one before it wrote.
pub data History {S : Type 0} (api : Client S) (from : ChangePodState)
    : ChangePodState → ℕ → Type 0 where
  born : History api from from zero
  then :
      {a b : ChangePodState} {n : ℕ}
      → History api from a n
      → Move api a b
      → History api from b (suc n)

abbrev Advances : ChangePodState → Call → Type 0
Advances from (update_change_pod_status d) = Step from d.status.status
Advances from (patch_change_pod_status a d) = Step from d.status.status
Advances from _ = Unit {0}

Edge-Step : {a b : ChangePodState} → Edge a b → Step a b
Edge-Step fill = fills
Edge-Step start = starts
Edge-Step start_failed = start_fails
Edge-Step finish = finishes
Edge-Step finish_failed = finish_fails
Edge-Step finished = closes_finish
Edge-Step pre_timed_out = closes_pre_timeout
Edge-Step post_timed_out = closes_post_timeout
Edge-Step pre_gave_up = closes_pre_failed
Edge-Step post_gave_up = closes_post_failed

is_pre_submitted_lem : (s : ChangePodState) → is_pre_submitted s ≡ true → s ≡ pre_submitted
is_pre_submitted_lem pre_submitted h = refl
is_pre_submitted_lem _ h = absurd cc

is_post_submitted_lem : (s : ChangePodState) → is_post_submitted s ≡ true → s ≡ post_submitted
is_post_submitted_lem post_submitted h = refl
is_post_submitted_lem _ h = absurd cc

IsLate-Step :
    (c : ChangePod) (now : ℤ) (after : ChangePod)
    → IsLate c now after
    → Step c.status.status after.status.status
IsLate-Step c now after (p, q, inl (e, over, t)) = rw (is_pre_submitted_lem _ e, t) start_times_out
IsLate-Step c now after (p, q, inr (e, over, t)) =
    rw (is_post_submitted_lem _ e, t) finish_times_out

Follows-Advances : (from : ChangePodState) (call : Call) → Follows from call → Advances from call
Follows-Advances from (update_change_pod_status d) h = Edge-Step h
Follows-Advances from (patch_change_pod_status a d) h = absurd h
Follows-Advances from _ h = tt

-- An answer of the callback is a step of the change pod that it patches.
pub Answers-Step :
    (r : CallbackRequest) (c before after : ChangePod)
    → Answers r c (patch_change_pod_status before after)
    → Step before.status.status after.status.status
Answers-Step r c a d (e, inl (p, q, t, u)) = rw (e, is_pre_submitted_lem _ q, t) start_answered
Answers-Step r c a d (e, inr (p, q, t, u)) = rw (e, is_post_submitted_lem _ q, t) finish_answered

Answers-Advances :
    (r : CallbackRequest) (c : ChangePod) (call : Call)
    → Answers r c call
    → Advances c.status.status call
Answers-Advances r c (update_change_pod_status d) h = absurd h
Answers-Advances r c (patch_change_pod_status a d) (e, h) =
    subst (λ x. Step x.status.status d.status.status) e (Answers-Step r c a d (e, h))
Answers-Advances r c _ h = tt

Writes-Step :
    (from to : ChangePodState) (call : Call) → Writes to call → Advances from call → Step from to
Writes-Step from to (update_change_pod_status d) e h = subst (Step from) e h
Writes-Step from to (patch_change_pod_status a d) e h = subst (Step from) e h
Writes-Step from to _ e h = absurd e

-- A status that an action wrote is a step from a status from which all its writes advance.
Wrote-Step :
    {S A : Type 0} {from : ChangePodState} (s : S) (m : Exec S A) (to : ChangePodState)
    → Issues (Advances from) m
    → Wrote to (calls_from s m)
    → Step from to
Wrote-Step {from = from} s m to h wrote =
    let (added, e, steps) = h.at (record { server = s; issued = [] }) in
    Any-All _ _ added (Any-append _ added (subst (Wrote to) e wrote)) steps (Writes-Step from to)

module _ {S : Type 0} (api : Client S) where
  -- Whatever the server, the clock and the publishing service answer, a status that the code writes is a
  -- step of the abstract machine from the status that it read: for the reconciler of a change pod in that
  -- status, for a callback that found the change pod, and for the two timeout loops at the change pod.
  pub Move-Step : {a b : ChangePodState} → Move api a b → Step a b
  Move-Step (reconciled c workload s to w) =
      Wrote-Step s _ to
        (Issues-weaken (Follows-Advances _) _
          (dispatch-Follows api c.status.status c workload refl))
        w
  Move-Step (called_back c r s to w) =
      Wrote-Step s _ to (Issues-weaken (Answers-Advances r c) _ (stage-Answers api r c)) w
  Move-Step (timed_out_before c s to w) =
      Wrote-Step s _ to (Issues-pre_timeouts api (c ∷ []) (IsLate-Step c, tt)) w
  Move-Step (timed_out_after c s to w) =
      Wrote-Step s _ to (Issues-post_timeouts api (c ∷ []) (IsLate-Step c, tt)) w

  pub History-Run : {a b : ChangePodState} {n : ℕ} → History api a b n → Run a b n
  History-Run born = here
  History-Run (then h m) = next (History-Run h) (Move-Step m)
