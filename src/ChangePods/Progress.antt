-- ===== src/ChangePods/Progress.antt =====
-- How the handlers move a change pod on.
use altershield_operator.Base.{String, ◌≡◌, refl, ◌∷◌, inl, inr}
use altershield_operator.Calls.{update_change_pod_status}
use altershield_operator.Exec.{World, Exec, Reply, done, failed, Reply-cases, pure, write, ◌>>=◌}
use altershield_operator.Client.{Client}
use altershield_operator.Types.{ChangePod}
use altershield_operator.Types.State.{
  ChangePodState, pre_submitted, pre_failed, post_submitted, post_failed, execute_done,
}
use altershield_operator.ChangePods.Status.{
  get_now_time, set_change_pod_status, set_change_pod_pre_submitted_status,
  set_change_pod_post_submitted_status, set_change_pod_done_status,
  set_change_pod_pre_failed_status, set_change_pod_post_failed_status, update_status,
}
use altershield_operator.ChangePods.Reconcile.{
  pre_wait_answered, post_wait_answered, handle_finished_change_pod,
}

-- From every world the action issues exactly one write, which gives the change pod the status.
abbrev pub Moves : {S : Type 0} → ChangePodState → Exec S (Unit {0}) → Type 0
Moves {S = S} st m =
    (w : World S)
    → (d : ChangePod) × ((m w).1.issued ≡ update_change_pod_status d ∷ w.issued)
      × (d.status.status ≡ st)

-- The status that an answer of the service leads to.
abbrev pub by_answer : {A : Type 0} → ChangePodState → ChangePodState → Reply A → ChangePodState
by_answer accepted refused (done a) = accepted
by_answer accepted refused (failed e) = refused

module _ {S : Type 0} (api : Client S) (c : ChangePod) where
  pub update_status-issued :
      (d : ChangePod) (w : World S)
      → (update_status api d w).1.issued ≡ update_change_pod_status d ∷ w.issued
  unfolding update_status ◌>>=◌ pure write
  update_status-issued d w = elim (Reply-cases (api.update_change_pod_status d w.server).0) [
    | inl (x, h) ↦ rw h refl
    | inr (e, h) ↦ rw h refl
  ]

  pre_wait-Moves :
      (reply : Reply String)
      → Moves (by_answer pre_submitted pre_failed reply) (pre_wait_answered api c reply)
  unfolding pre_wait_answered set_change_pod_pre_submitted_status set_change_pod_pre_failed_status
      set_change_pod_status get_now_time ◌>>=◌ pure
  pre_wait-Moves (done node_id) w = (_, update_status-issued _ _, refl)
  pre_wait-Moves (failed e) w = (_, update_status-issued _ _, refl)

  post_wait-Moves :
      {A : Type 0} (reply : Reply A)
      → Moves (by_answer post_submitted post_failed reply) (post_wait_answered api c reply)
  unfolding post_wait_answered set_change_pod_post_submitted_status
      set_change_pod_post_failed_status set_change_pod_status get_now_time ◌>>=◌ pure
  post_wait-Moves (done a) w = (_, update_status-issued _ _, refl)
  post_wait-Moves (failed e) w = (_, update_status-issued _ _, refl)

  finished-Moves : Moves execute_done (handle_finished_change_pod api c)
  unfolding handle_finished_change_pod set_change_pod_done_status set_change_pod_status get_now_time
      ◌>>=◌ pure
  finished-Moves w = (_, update_status-issued _ _, refl)

  -- Whatever the server answers, a handler that has its result issues exactly one write, the status that
  -- moves the change pod on: after the start notice submitted, or failed if the service could not be
  -- told; the same after the finish notice; and for every finished status done. It never issues none.
  pub answered-Moves :
      ((reply : Reply String)
        → Moves (by_answer pre_submitted pre_failed reply) (pre_wait_answered api c reply))
      × ((A : Type 0) (reply : Reply A)
          → Moves (by_answer post_submitted post_failed reply) (post_wait_answered api c reply))
      × Moves execute_done (handle_finished_change_pod api c)
  answered-Moves = (pre_wait-Moves, λ A. post_wait-Moves, finished-Moves)
