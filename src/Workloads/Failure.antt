-- ===== src/Workloads/Failure.antt =====
-- What becomes of a workload whose checked pods have a failed one among them.
use altershield_operator.Base.{
  ℕ, ◌≡◌, refl, Bool, true, false, ◌&&◌, List, [], ◌∷◌, ◌⊎◌, inl, inr, length, is_nil, ltb, arith,
  if◌then◌else◌,
}
use altershield_operator.Base.Int.{ℤ}
use altershield_operator.Calls.{Call, update_workload_status}
use altershield_operator.Client.{Client}
use altershield_operator.Exec.{
  Outcome, ok, err, panic, World, Exec, continue, pure, write, Reply, done, failed, answer, ◌>>=◌,
}
use altershield_operator.ChangePods.Status.{get_now_time}
use altershield_operator.Types.{ChangeWorkload, PodSummary}
use altershield_operator.Types.State.{suspend}
use altershield_operator.Utils.Constants.{time_layout}
use altershield_operator.Utils.Pods.{is_pod_summary_slice_equal}
use altershield_operator.Workloads.Sync.{
  validated_state, update_status, validate_success_or_suspend, update_checked_pods,
}

-- The last of the calls is a write of the status of a workload that satisfies `P`.
abbrev pub EndsIn : (ChangeWorkload → Type 0) → List Call → Type 0
EndsIn P calls =
    (w : ChangeWorkload) × (before : List Call) × (calls ≡ update_workload_status w ∷ before) × P w

-- The lists and the status that a failed pod leads to.
abbrev pub IsSuspended : List PodSummary → List PodSummary → ChangeWorkload → Type 0
IsSuspended pass fail w =
    (w.status.status ≡ suspend)
    × (w.status.defense_check_pass_pods ≡ pass)
    × (w.status.defense_check_fail_pods ≡ fail)

-- The two lists were as they are and nothing was written, or the last write has them.
abbrev pub IsSynced :
    ChangeWorkload → List PodSummary → List PodSummary → List Call → List Call → Type 0
IsSynced w pass fail before after =
    ((is_pod_summary_slice_equal pass w.status.defense_check_pass_pods ≡ true)
      × (is_pod_summary_slice_equal fail w.status.defense_check_fail_pods ≡ true)
      × (after ≡ before))
    ⊎ EndsIn (IsSuspended pass fail) after

-- From every world, the action fails, or its last write is one of a workload that satisfies `P`.
record Closes {S A : Type 0} (P : ChangeWorkload → Type 0) (m : Exec S A) : Type 0 where
  at : (w : World S) (a : A) → (m w).0 ≡ ok a → EndsIn P (m w).1.issued

module _ {S A B : Type 0} {P : ChangeWorkload → Type 0} where
  Closes-continue :
      (r : Outcome A) (f : A → Exec S B) → ((a : A) → Closes P (f a)) → Closes P (continue r f)
  Closes-continue (ok a) f h = h a
  Closes-continue (err e) f h = record { at = λ w b p. absurd cc }
  Closes-continue panic f h = record { at = λ w b p. absurd cc }

  Closes-bind : (m : Exec S A) (f : A → Exec S B) → ((a : A) → Closes P (f a)) → Closes P (m >>= f)
  unfolding ◌>>=◌
  Closes-bind m f h = record { at = λ w. (Closes-continue (m w).0 f h).at (m w).1 }

-- A choice between doing nothing and an action that closes.
Closes-if :
    {S : Type 0} {P : ChangeWorkload → Type 0} (b c : Bool) {m : Exec S (Unit {0})}
    → Closes P m
    → (v : World S) (a : Unit {0}) → ((if b && c then pure tt else m) v).0 ≡ ok a
    → ((b ≡ true) × (c ≡ true) × (((if b && c then pure tt else m) v).1.issued ≡ v.issued))
      ⊎ EndsIn P ((if b && c then pure tt else m) v).1.issued
unfolding pure
Closes-if true true h v a e = inl (refl, refl, refl)
Closes-if true false h v a e = inr (h.at v a e)
Closes-if false c h v a e = inr (h.at v a e)

-- What follows a call and only returns adds no call.
issued-continue :
    {S A : Type 0} (x : Reply A) (w : World S)
    → (continue (answer x) (λ stored. pure tt) w).1.issued ≡ w.issued
unfolding pure
issued-continue (done a) w = refl
issued-continue (failed e) w = refl

some_failed : (us : List PodSummary) → is_nil us ≡ false → ltb 0 (length us) ≡ true
some_failed [] h = absurd cc
some_failed (u ∷ us) h = ground arith

validated_state-suspend :
    (w : ChangeWorkload) (finished : ℕ) (replicas : ℤ)
    → is_nil w.status.defense_check_fail_pods ≡ false
    → validated_state w finished replicas ≡ suspend
unfolding validated_state
validated_state-suspend w finished replicas h =
    rw (some_failed w.status.defense_check_fail_pods h) refl

module _ {S : Type 0} (api : Client S) where
  Closes-update_status :
      (P : ChangeWorkload → Type 0) (d : ChangeWorkload)
      → ((time : _) (unix : ℤ)
          → P (record d {
            status = record d.status { update_time = time; update_time_unix = unix };
          }))
      → Closes P (update_status api d)
  unfolding update_status get_now_time ◌>>=◌ pure write
  Closes-update_status P d h = record {
    at = λ w a e.
        let (time, t) = api.now_text time_layout w.server in
        let (unix, u) = api.now t in
        (_, _, issued-continue (api.update_workload_status _ u).0 _, h time unix);
  }

  Closes-validate :
      (w : ChangeWorkload)
      → is_nil w.status.defense_check_fail_pods ≡ false
      → Closes
          (IsSuspended w.status.defense_check_pass_pods w.status.defense_check_fail_pods)
          (validate_success_or_suspend api w)
  unfolding validate_success_or_suspend
  Closes-validate w h = Closes-bind _ _ (λ deployment. Closes-bind _ _ (λ replicas.
      Closes-bind _ _ (λ finished. Closes-bind _ _ (λ x.
        Closes-update_status _
          (record w {
            status = record w.status { status = validated_state w (length finished) replicas };
          })
          (λ time unix. (validated_state-suspend w (length finished) replicas h, refl, refl))))))

  pub update_checked_pods-IsSuspended :
      (w : ChangeWorkload) (pass fail : List PodSummary) (v : World S) (a : Unit {0})
      → is_nil fail ≡ false
      → (update_checked_pods api w pass fail v).0 ≡ ok a
      → IsSynced w pass fail v.issued (update_checked_pods api w pass fail v).1.issued
  unfolding update_checked_pods
  update_checked_pods-IsSuspended w pass fail v a h =
      Closes-if (is_pod_summary_slice_equal pass w.status.defense_check_pass_pods)
        (is_pod_summary_slice_equal fail w.status.defense_check_fail_pods)
        (Closes-validate
          (record w {
            status = record w.status {
              defense_check_pass_pods = pass;
              defense_check_fail_pods = fail;
            };
          })
          h)
        v a
