-- ===== src/Lifecycle/Delivery.antt =====
-- How the verdict of the publishing service on a batch gets to the workload: through the callback, the
-- change pod controller and the change workload controller.
use altershield_operator.Base.{
  ◌≡◌, refl, ap, ◌∙◌, Bool, true, false, not, List, [], ◌∷◌, if◌then◌else◌, ◌==◌, map, keep, ◌⊎◌,
  inl, inr, Bool-cases, arith,
}
use altershield_operator.Callback.{
  stage, post_stage, patch_status, judged, with_verdict, json, defense_stage_post,
}
use altershield_operator.Calls.{respond, patch_change_pod_status, update_change_pod_status}
use altershield_operator.Client.{Client}
use altershield_operator.ChangePods.Progress.{update_status-issued}
use altershield_operator.ChangePods.Reconcile.{dispatch, handle_finished_change_pod}
use altershield_operator.ChangePods.Status.{
  set_change_pod_done_status, set_change_pod_status, get_now_time,
}
use altershield_operator.Exec.{
  World, Reply, done, failed, pure, write, ◌>>=◌, continue, caught, answer,
}
use altershield_operator.Types.{ChangePod, ChangeWorkload, PodSummary}
use altershield_operator.Types.Opscloud.{CallbackRequest, CheckVerdict}
use altershield_operator.Types.State.{post_finish, execute_done, is_post_submitted}
use altershield_operator.Utils.Constants.{change_pod_verdict_pass, time_layout}
use altershield_operator.Workloads.Sync.{verdict_of}
use altershield_operator.Workloads.Verdicts.{passed, get_pass_and_failed_pods_lem}

-- The pods of a change pod with the verdict.
abbrev pub verdicts : CheckVerdict → ChangePod → List PodSummary
verdicts v c = map (with_verdict v) c.spec.pod_infos

keep-all :
    (v : CheckVerdict) (p : PodSummary → Bool) (b : Bool) (infos : List PodSummary)
    → ((i : PodSummary) → p (with_verdict v i) ≡ b)
    → keep p (map (with_verdict v) infos) ≡ (if b then map (with_verdict v) infos else [])
keep-all v p b [] h = ground arith
keep-all v p true (i ∷ is) h = rw (h i) (ap (λ l. with_verdict v i ∷ l) (keep-all v p true is h))
keep-all v p false (i ∷ is) h = rw (h i) (keep-all v p false is h)

-- The pods that passed and those that did not.
abbrev divided : List PodSummary → List PodSummary × List PodSummary
divided infos = (keep passed infos, keep (λ x. not (passed x)) infos)

-- What a verdict makes of the pods of its change pod: all pass, or none.
abbrev pub counted : CheckVerdict → List PodSummary → List PodSummary × List PodSummary
counted v infos =
    if v.verdict == change_pod_verdict_pass
    then (map (with_verdict v) infos, [])
    else ([], map (with_verdict v) infos)

keep-verdicts :
    (v : CheckVerdict) (infos : List PodSummary)
    → divided (map (with_verdict v) infos) ≡ counted v infos
unfolding with_verdict
keep-verdicts v infos = elim (Bool-cases (v.verdict == change_pod_verdict_pass)) [
  | inl p ↦
      rw
        (
          p,
          keep-all v passed true infos (λ i. p),
          keep-all v (λ x. not (passed x)) false infos (λ i. ap not p),
        )
        refl
  | inr p ↦
      rw
        (
          p,
          keep-all v passed false infos (λ i. p),
          keep-all v (λ x. not (passed x)) true infos (λ i. ap not p),
        )
        refl
]

module _ {S : Type 0} (api : Client S) where
  -- The last step of a finished change pod keeps its pods and results, and notes how it finished.
  finished_lem :
      (c : ChangePod) (w : World S)
      → (d : ChangePod) × ((handle_finished_change_pod api c w).1.issued
          ≡ update_change_pod_status d ∷ w.issued)
        × (d.status.status ≡ execute_done)
        × (d.status.message ≡ c.status.status)
        × (d.status.pod_results ≡ c.status.pod_results)
        × (d.spec ≡ c.spec)
  unfolding handle_finished_change_pod set_change_pod_done_status set_change_pod_status get_now_time
      ◌>>=◌ pure
  finished_lem c w = (_, update_status-issued api c _ _, refl, refl, refl, refl)

  -- The change pod that the callback sends, with the times that the clock gives.
  abbrev stamped : CheckVerdict → ChangePod → World S → ChangePod
  stamped v c w =
      let (time, s) = api.now_text time_layout w.server in
      record (judged v c) {
        status = record (judged v c).status {
          update_time = time;
          update_time_unix = (api.now s).0;
        };
      }

  -- The answer to a callback whose patch was issued.
  patched_lem :
      (x : Reply ChangePod) (w : World S)
      → (continue
            (caught (answer x, w)).0
            (elim [ failed e ↦ json api 500 | done stored ↦ pure tt ])
            (caught (answer x, w)).1).1.issued
          ≡ w.issued
        ⊎ (continue
            (caught (answer x, w)).0
            (elim [ failed e ↦ json api 500 | done stored ↦ pure tt ])
            (caught (answer x, w)).1).1.issued
          ≡ respond 500 ∷ w.issued
  unfolding json pure write
  patched_lem (done stored) w = inl refl
  patched_lem (failed e) w = inr refl

  -- A callback after the change patches the change pod, and answers 500 where the patch failed.
  post_stage_lem :
      (v : CheckVerdict) (c : ChangePod) (w : World S)
      → is_post_submitted c.status.status ≡ true
      → (d : ChangePod) × (((post_stage api v c w).1.issued
            ≡ patch_change_pod_status c d ∷ w.issued)
          ⊎ ((post_stage api v c w).1.issued
              ≡ respond 500 ∷ patch_change_pod_status c d ∷ w.issued))
        × (d.status.status ≡ post_finish)
        × (d.status.pod_results ≡ verdicts v c)
  unfolding post_stage patch_status judged json get_now_time ◌>>=◌ pure write
  post_stage_lem v c w h = (
    stamped v c w,
    rw h (patched_lem (api.patch_change_pod_status c (stamped v c w) _).0 _),
    refl,
    refl,
  )

  stage-post :
      (r : CallbackRequest) (c : ChangePod)
      → r.defense_stage_enum ≡ defense_stage_post
      → stage api r c ≡ post_stage api r.verdict c
  unfolding stage
  stage-post r c e = rw e refl

finished-verdicts :
    (v : CheckVerdict) (c d : ChangePod)
    → d.status.message ≡ post_finish
    → d.status.pod_results ≡ verdicts v c
    → verdict_of d.status.message d ≡ counted v c.spec.pod_infos
unfolding verdict_of
finished-verdicts v c d m e =
    ap (λ s. verdict_of s d) m
    ∙ get_pass_and_failed_pods_lem d
    ∙ ap divided e
    ∙ keep-verdicts v c.spec.pod_infos

module _ {S : Type 0} (api : Client S) where
  dispatch-finish :
      (c : ChangePod) (workload : ChangeWorkload)
      → c.status.status ≡ post_finish
      → dispatch api c.status.status c workload ≡ handle_finished_change_pod api c
  unfolding dispatch
  dispatch-finish c workload e = rw e refl

  -- The callback writes the patched change pod, the reconciler of that writes the closed one, and the
  -- workload counts of that what the verdict makes of the pods.
  abbrev pub IsDelivered :
      CallbackRequest
      → ChangePod
      → ChangeWorkload
      → World S
      → World S
      → ChangePod
      → ChangePod
      → Type 0
  IsDelivered r c workload w v patched closed =
      (((stage api r c w).1.issued ≡ patch_change_pod_status c patched ∷ w.issued)
        ⊎ ((stage api r c w).1.issued ≡ respond 500 ∷ patch_change_pod_status c patched ∷ w.issued))
      × ((dispatch api patched.status.status patched workload v).1.issued
          ≡ update_change_pod_status closed ∷ v.issued)
      × (closed.status.status ≡ execute_done)
      × (verdict_of closed.status.message closed ≡ counted r.verdict c.spec.pod_infos)

  -- Whatever the server and the clock answer, the callback after the change of a submitted change pod
  -- patches it (and answers 500 where the patch failed), and the reconciler of the patched change pod, in
  -- any later world, writes it as done. What a workload counts of the change pod so written are exactly the
  -- pods of the batch, with the verdict of the callback: all as passed where the verdict is `pass`, and
  -- all as failed where it is not.
  pub verdict-IsDelivered :
      (r : CallbackRequest) (c : ChangePod) (workload : ChangeWorkload) (w v : World S)
      → is_post_submitted c.status.status ≡ true
      → r.defense_stage_enum ≡ defense_stage_post
      → (patched : ChangePod) × (closed : ChangePod) × IsDelivered r c workload w v patched closed
  verdict-IsDelivered r c workload w v h e =
      let (patched, sends, finishes, results) = post_stage_lem api r.verdict c w h in
      let (closed, writes, last, message, kept, spec) = finished_lem api patched v in
      (
        patched,
        closed,
        (
          rw (stage-post api r c e) sends,
          rw (dispatch-finish patched workload finishes) writes,
          last,
          finished-verdicts r.verdict c closed (message ∙ finishes) (kept ∙ results),
        ),
      )
