-- ===== src/Callback/Effects.antt =====
-- What a callback may write, and how it answers.
use altershield_operator.Base.{
  String, ℕ, ◌≡◌, refl, true, [], ◌∷◌, ◌==◌, map, ◌⊎◌, inl, inr, Bool-cases,
}
use altershield_operator.Calls.{Call, respond, patch_change_pod_status}
use altershield_operator.Exec.{done, failed, World, pure, write, ◌>>=◌}
use altershield_operator.Exec.Issues.{
  Issues, Issues-bind, Issues-if, Issues-pure, Issues-write, Issues-sample, Issues-attempt,
}
use altershield_operator.Client.{Client}
use altershield_operator.Types.{ChangePod}
use altershield_operator.Types.Opscloud.{CallbackRequest, CallbackWrapperRequest}
use altershield_operator.Types.State.{post_wait, post_finish, is_pre_submitted, is_post_submitted}
use altershield_operator.ChangePods.Status.{get_now_time}
use altershield_operator.Utils.Constants.{change_pod_field_change_pod_id}
use altershield_operator.Callback.{
  defense_stage_pre, defense_stage_post, with_verdict, judged, json, patch_status, pre_stage,
  post_stage, stage, first_found, with_listed, empty_change_pod, check_type_batch,
  check_callback_handler,
}

-- A patch of the change pod that was found: before the change it goes from submitted to waiting; after
-- the change from submitted to finished, with the verdict in the results of exactly its own pods.
abbrev pub Answers : CallbackRequest → ChangePod → Call → Type 0
Answers r c (respond code) = Unit
Answers r c (patch_change_pod_status before after) =
    (before ≡ c)
    × (((r.defense_stage_enum == defense_stage_pre) ≡ true)
          × (is_pre_submitted c.status.status ≡ true)
          × (after.status.status ≡ post_wait)
          × (after.status.pod_results ≡ c.status.pod_results)
        ⊎ ((r.defense_stage_enum == defense_stage_post) ≡ true)
          × (is_post_submitted c.status.status ≡ true)
          × (after.status.status ≡ post_finish)
          × (after.status.pod_results ≡ map (with_verdict r.verdict) c.spec.pod_infos))
Answers r c _ = ⊥

module _ {S : Type 0} (api : Client S) (r : CallbackRequest) (c : ChangePod) where
  Issues-patch_status :
      (changed : ChangePod)
      → ((time : String) (unix : _)
          → Answers r c (
              patch_change_pod_status c (record changed {
                status = record changed.status { update_time = time; update_time_unix = unix };
              })))
      → Issues (Answers r c) (patch_status api c changed)
  unfolding patch_status get_now_time
  Issues-patch_status changed q = Issues-bind _ _ (Issues-sample _) (λ time.
      Issues-bind _ _ (Issues-sample _) (λ unix. Issues-attempt _ (Issues-write _ _ (q time unix))))

  Issues-json : (code : ℕ) → Issues (Answers r c) (json api code)
  unfolding json
  Issues-json code = Issues-write _ _ tt

  Issues-pre_stage :
      (r.defense_stage_enum == defense_stage_pre) ≡ true → Issues (Answers r c) (pre_stage api c)
  unfolding pre_stage
  Issues-pre_stage p =
      Issues-if (is_pre_submitted c.status.status) _ _
        (λ e.
          Issues-bind _ _
            (Issues-patch_status (record c { status = record c.status { status = post_wait } })
              (λ time unix. (refl, inl (p, e, refl, refl))))
            (elim [ failed x ↦ Issues-json 500 | done stored ↦ Issues-json 200 ]))
        (λ _. Issues-json 200)

  Issues-post_stage :
      (r.defense_stage_enum == defense_stage_post) ≡ true
      → Issues (Answers r c) (post_stage api r.verdict c)
  unfolding post_stage judged
  Issues-post_stage p =
      Issues-if (is_post_submitted c.status.status) _ _
        (λ e.
          Issues-bind _ _
            (Issues-patch_status (judged r.verdict c) (λ time unix. (refl, inr (p, e, refl, refl))))
            (elim [ failed x ↦ Issues-json 500 | done stored ↦ Issues-pure tt ]))
        (λ _. Issues-json 200)

  -- Whatever the server answers, a callback for a change pod that was found writes nothing but HTTP
  -- responses and patches of that change pod's status: in the stage before the change only from
  -- `PreSubmitted` to `PostWait`, with the results kept, and in the stage after it only from
  -- `PostSubmitted` to `PostFinish`, with the results made of exactly its own pods and the verdict.
  pub stage-Answers : Issues (Answers r c) (stage api r c)
  unfolding stage
  stage-Answers = Issues-if (r.defense_stage_enum == defense_stage_pre) _ _ Issues-pre_stage (λ _.
      Issues-if (r.defense_stage_enum == defense_stage_post) _ _ Issues-post_stage
        (λ _. Issues-pure tt))

module _ {S : Type 0} (api : Client S) (r : CallbackRequest) where
  stage-empty_change_pod :
      (w : World S)
      → ((r.defense_stage_enum == defense_stage_pre) ≡ true)
        ⊎ ((r.defense_stage_enum == defense_stage_post) ≡ true)
      → (stage api r empty_change_pod w).1.issued ≡ respond 200 ∷ w.issued
  unfolding stage pre_stage post_stage json write
  stage-empty_change_pod w (inl e) = rw e refl
  stage-empty_change_pod w (inr e) = elim (Bool-cases (r.defense_stage_enum == defense_stage_pre)) [
    | inl p ↦ rw p refl
    | inr p ↦ rw (p, e) refl
  ]

  -- A callback of one of the two stages whose change pod is not found is answered with 200 twice, and
  -- nothing else is written.
  with_listed_nil :
      (w : World S)
      → ((r.defense_stage_enum == defense_stage_pre) ≡ true)
        ⊎ ((r.defense_stage_enum == defense_stage_post) ≡ true)
      → (with_listed api r [] w).1.issued ≡ respond 200 ∷ respond 200 ∷ w.issued
  unfolding with_listed first_found json write pure ◌>>=◌
  with_listed_nil w h = stage-empty_change_pod _ h

module _ {S : Type 0} (api : Client S) where
  -- A batch callback of one of the two stages, for which the server lists no change pod, is answered with
  -- 200 twice, and nothing else is written.
  pub answers_twice :
      (r : CallbackWrapperRequest) (w : World S)
      → (r.change_check_type == check_type_batch) ≡ true
      → ((r.callback_request.defense_stage_enum == defense_stage_pre) ≡ true)
        ⊎ ((r.callback_request.defense_stage_enum == defense_stage_post) ≡ true)
      → (api.list_change_pods change_pod_field_change_pod_id r.callback_request.node_id w.server).0
        ≡ done []
      → (check_callback_handler api (done r) w).1.issued ≡ respond 200 ∷ respond 200 ∷ w.issued
  unfolding check_callback_handler ◌>>=◌
  answers_twice r w b h e = rw (b, e) (with_listed_nil api r.callback_request _ h)
