-- ===== src/Lifecycle/Runs.antt =====
-- How many steps a change pod can take.
use altershield_operator.Base.{ℕ, ◌+◌, ◌≤◌, ◌<◌, arith}
use altershield_operator.Types.State.{
  ChangePodState, execute_init, pre_wait, pre_submitted, pre_timeout, pre_failed, post_wait,
  post_submitted, post_finish, post_timeout, post_failed, execute_done, other_state,
}
use altershield_operator.Lifecycle.{
  Step, fills, starts, start_fails, start_answered, start_times_out, finishes, finish_fails,
  finish_answered, finish_times_out, closes_finish, closes_pre_timeout, closes_post_timeout,
  closes_pre_failed, closes_post_failed, rank, Run, here, next,
}

pub rank-Step : {a b : ChangePodState} → Step a b → rank a < rank b
rank-Step fills = omega arith
rank-Step starts = omega arith
rank-Step start_fails = omega arith
rank-Step start_answered = omega arith
rank-Step start_times_out = omega arith
rank-Step finishes = omega arith
rank-Step finish_fails = omega arith
rank-Step finish_answered = omega arith
rank-Step finish_times_out = omega arith
rank-Step closes_finish = omega arith
rank-Step closes_pre_timeout = omega arith
rank-Step closes_post_timeout = omega arith
rank-Step closes_pre_failed = omega arith
rank-Step closes_post_failed = omega arith

pub rank_bound : (s : ChangePodState) → rank s ≤ 6
rank_bound execute_init = omega arith
rank_bound pre_wait = omega arith
rank_bound pre_submitted = omega arith
rank_bound pre_timeout = omega arith
rank_bound pre_failed = omega arith
rank_bound post_wait = omega arith
rank_bound post_submitted = omega arith
rank_bound post_finish = omega arith
rank_bound post_timeout = omega arith
rank_bound post_failed = omega arith
rank_bound execute_done = omega arith
rank_bound (other_state s) = omega arith

Run-rank : {a b : ChangePodState} {n : ℕ} → Run a b n → n + rank a ≤ rank b
Run-rank here = omega arith
Run-rank (next r s) = omega (arith, Run-rank r, rank-Step s)

pub Run-bound : {a b : ChangePodState} {n : ℕ} → Run a b n → n ≤ 6
Run-bound {b} r = omega (arith, Run-rank r, rank_bound b)
