-- ===== src/Lifecycle.antt =====
-- The life of a change pod as an abstract machine: what the change pod controller, the callback of the
-- publishing service and the timeout loop together promise of its status. Neither the objects nor the
-- server are part of it.
pub mod Runs
pub mod Refinement
pub mod Courses
pub mod Delivery
pub mod Server
pub mod Batch
pub mod Answered
pub mod Filled
pub mod Completion
pub mod Races
use altershield_operator.Base.{ℕ, zero, suc}
use altershield_operator.Types.State.{
  ChangePodState, execute_init, pre_wait, pre_submitted, pre_timeout, pre_failed, post_wait,
  post_submitted, post_finish, post_timeout, post_failed, execute_done, other_state,
}

-- Who moves the status, and from where to where.
pub data Step : ChangePodState → ChangePodState → Type 0 where
  fills : Step execute_init pre_wait
  starts : Step pre_wait pre_submitted
  start_fails : Step pre_wait pre_failed
  start_answered : Step pre_submitted post_wait
  start_times_out : Step pre_submitted pre_timeout
  finishes : Step post_wait post_submitted
  finish_fails : Step post_wait post_failed
  finish_answered : Step post_submitted post_finish
  finish_times_out : Step post_submitted post_timeout
  closes_finish : Step post_finish execute_done
  closes_pre_timeout : Step pre_timeout execute_done
  closes_post_timeout : Step post_timeout execute_done
  closes_pre_failed : Step pre_failed execute_done
  closes_post_failed : Step post_failed execute_done

-- How far a status is; the status of another writer is nowhere.
abbrev pub rank : ChangePodState → ℕ
rank execute_init = 0
rank pre_wait = 1
rank pre_submitted = 2
rank post_wait = 3
rank post_submitted = 4
rank pre_timeout = 5
rank pre_failed = 5
rank post_finish = 5
rank post_timeout = 5
rank post_failed = 5
rank execute_done = 6
rank (other_state s) = 0

-- Some steps, one after the other, and their number.
pub data Run (from : ChangePodState) : ChangePodState → ℕ → Type 0 where
  here : Run from from zero
  next : {a b : ChangePodState} {n : ℕ} → Run from a n → Step a b → Run from b (suc n)
