-- ===== src/Lifecycle/Courses.antt =====
-- How long a change pod that only the operator writes can live, and what it passes.
use altershield_operator.Base.{◌≡◌, refl, sym, ◌∙◌, ap, List, [], ◌∷◌, ℕ, ◌≤◌, ◌⊎◌, inl, inr, arith}
use mathlib.Core.Path.{subst}
use altershield_operator.Client.{Client}
use altershield_operator.Types.State.{
  ChangePodState, execute_init, pre_wait, pre_submitted, pre_timeout, pre_failed, post_wait,
  post_submitted, post_finish, post_timeout, post_failed, execute_done,
}
use altershield_operator.Lifecycle.{
  Step, fills, starts, start_fails, start_answered, start_times_out, finishes, finish_fails,
  finish_answered, finish_times_out, closes_finish, closes_pre_timeout, closes_post_timeout,
  closes_pre_failed, closes_post_failed,
}
use altershield_operator.Lifecycle.Runs.{rank-Step, rank_bound, Run-bound}
use altershield_operator.Lifecycle.Refinement.{History, born, then, Move-Step, History-Run}

-- The only way from the initial status to a status that is not the last, the latest status first.
abbrev pub way : ChangePodState → List ChangePodState
way pre_wait = pre_wait ∷ []
way pre_submitted = pre_submitted ∷ pre_wait ∷ []
way pre_timeout = pre_timeout ∷ pre_submitted ∷ pre_wait ∷ []
way pre_failed = pre_failed ∷ pre_wait ∷ []
way post_wait = post_wait ∷ pre_submitted ∷ pre_wait ∷ []
way post_submitted = post_submitted ∷ post_wait ∷ pre_submitted ∷ pre_wait ∷ []
way post_finish = post_finish ∷ post_submitted ∷ post_wait ∷ pre_submitted ∷ pre_wait ∷ []
way post_timeout = post_timeout ∷ post_submitted ∷ post_wait ∷ pre_submitted ∷ pre_wait ∷ []
way post_failed = post_failed ∷ post_wait ∷ pre_submitted ∷ pre_wait ∷ []
way _ = []

-- The statuses that a history writes, the latest first.
abbrev pub course :
    {S : Type 0} {api : Client S} {a b : ChangePodState} {n : ℕ}
    → History api a b n
    → List ChangePodState
course born = []
course (then {b = b} h m) = b ∷ course h

-- The statuses written are those of the only way to the status, or, where it is the last, of the only way
-- to a status from which the last is a step.
abbrev pub IsCourse : ChangePodState → List ChangePodState → Type 0
IsCourse b written =
    (written ≡ way b)
    ⊎ (b ≡ execute_done)
      × ((a : ChangePodState) × Step a execute_done × (written ≡ execute_done ∷ way a))

Step-way : {a b : ChangePodState} → Step a b → (way b ≡ b ∷ way a) ⊎ (b ≡ execute_done)
Step-way fills = inl refl
Step-way starts = inl refl
Step-way start_fails = inl refl
Step-way start_answered = inl refl
Step-way start_times_out = inl refl
Step-way finishes = inl refl
Step-way finish_fails = inl refl
Step-way finish_answered = inl refl
Step-way finish_times_out = inl refl
Step-way closes_finish = inr refl
Step-way closes_pre_timeout = inr refl
Step-way closes_post_timeout = inr refl
Step-way closes_pre_failed = inr refl
Step-way closes_post_failed = inr refl

-- No step leads from the last status.
Step-last : {b : ChangePodState} → Step execute_done b → ⊥
Step-last {b} s = omega (arith, rank-Step s, rank_bound b)

module _ {a b : ChangePodState} {written : List ChangePodState} where
  IsCourse-then : Step a b → IsCourse a written → IsCourse b (b ∷ written)
  IsCourse-then s (inr (e, _)) = absurd (Step-last (subst (λ c. Step c b) e s))
  IsCourse-then s (inl e) = elim (Step-way s) [
    | inl f ↦ inl (ap (λ l. b ∷ l) e ∙ sym f)
    | inr f ↦ inr (f, (a, subst (Step a) f s, rw (e, f) refl))
  ]

module _ {S : Type 0} (api : Client S) where
  History_bound : {a b : ChangePodState} {n : ℕ} → History api a b n → n ≤ 6
  History_bound h = Run-bound (History-Run api h)

  History-IsCourse :
      {b : ChangePodState} {n : ℕ} (h : History api execute_init b n) → IsCourse b (course h)
  History-IsCourse born = inl refl
  History-IsCourse (then h m) = IsCourse-then (Move-Step api m) (History-IsCourse h)

  -- Whatever the server, the clock and the service answer, a change pod that is moved from the initial
  -- status by the operator alone, each move from the status that the one before it wrote, has passed the
  -- only way to its status: `PostFinish`, for one, is written only after `PreWait`, `PreSubmitted`,
  -- `PostWait` and `PostSubmitted` in this order. Such a history
  -- has at most six moves.
  pub course-IsCourse :
      {b : ChangePodState} {n : ℕ} (h : History api execute_init b n)
      → IsCourse b (course h) × (n ≤ 6)
  course-IsCourse h = (History-IsCourse h, History_bound h)
