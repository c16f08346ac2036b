-- ===== src/Workloads/Guard.antt =====
-- When a workload begins a batch, and what it writes then.
use mathlib.Core.Path.{subst}
use Prim.Native.String.{◌++◌}
use altershield_operator.Base.{
  ℕ, String, ◌≡◌, ◌≢◌, refl, ap, ◌∙◌, Bool, true, false, List, [], ◌∷◌, ◌⊎◌, inl, inr, Bool-cases,
  length, ◌+◌, none, some, if◌then◌else◌,
}
use altershield_operator.Base.Int.{ℤ, pos}
use altershield_operator.Calls.{Call, create_change_pod, patch_workload_status}
use altershield_operator.Exec.{
  Error, World, Exec, Outcome, ok, err, panic, Reply, done, failed, Reply-cases, continue, pure,
  ◌>>=◌,
}
use altershield_operator.Exec.Issues.{Issues, Adds}
use altershield_operator.Client.{Client}
use altershield_operator.Types.{ChangePod, ChangeWorkload}
use altershield_operator.Types.State.{execute_init}
use altershield_operator.ChangePods.Status.{get_now_time}
use altershield_operator.Utils.Constants.{
  change_pod_field_change_workload_id, meta_mark, time_layout,
}
use altershield_operator.Workloads.Query.{get_all_change_pods_by_workload}
use altershield_operator.Workloads.Permissions.{Issues-is_necessary}
use altershield_operator.Workloads.Create.{
  any_init, is_exist_init_status_change_pod, ensure_init_change_pod, is_necessary, new_change_pod,
  create_new_change_pod, patch_workload_entry_time,
}

-- An action that issues nothing leaves the issued calls as they were.
quiet :
    {S A : Type 0} (m : Exec S A)
    → Issues (λ (c : Call). ⊥) m
    → (w : World S) → (m w).1.issued ≡ w.issued
quiet m h w = go (h.at w)
  where
    go : Adds (λ (c : Call). ⊥) w.issued (m w).1.issued → (m w).1.issued ≡ w.issued
    go ([], e, p) = e
    go (c ∷ cs, e, p) = absurd p.0

module _ {S : Type 0} (api : Client S) (w : ChangeWorkload) where
  -- The server's answer to the list of the workload's change pods.
  abbrev pub own_change_pods : S → Reply (List ChangePod)
  own_change_pods s =
      (api.list_change_pods_in w.namespace change_pod_field_change_workload_id w.name s).0

  -- The change pod that follows `n` others: named with the next number, initial and without pods.
  abbrev pub IsNext : ℕ → ChangePod → Type 0
  IsNext n c =
      (c.namespace ≡ w.namespace)
      × (c.name ≡ (w.name ++ meta_mark) ++ api.format_int (pos (n + 1)))
      × (c.spec.change_workload_id ≡ w.name)
      × (c.spec.pod_infos ≡ [])
      × (c.status.status ≡ execute_init)

  -- One change pod was created, and after it at most the workload's entry time was patched, and nothing
  -- else of the workload.
  abbrev pub IsBegun : ℕ → List Call → List Call → Type 0
  IsBegun n before after =
      (c : ChangePod) × IsNext n c
      × ((after ≡ create_change_pod (api.own_change_pod w c) ∷ before)
          ⊎ ((time : String) × (unix : ℤ) × (after
                ≡ patch_workload_status w (record w {
                  status = record w.status { entry_time = time; entry_time_unix = unix };
                })
                  ∷ create_change_pod (api.own_change_pod w c)
                  ∷ before)))

  -- The workload with the times at which the entry time is patched.
  abbrev entered_at : World S → ChangeWorkload
  entered_at v = record w {
    status = record w.status {
      entry_time = (api.now_text time_layout v.server).0;
      entry_time_unix = (api.now (api.now_text time_layout v.server).1).0;
    };
  }

  entry_issued :
      {B : Type 0} (g : ChangeWorkload → B) (v : World S)
      → ((patch_workload_entry_time api w >>= λ patched. pure (g patched)) v).1.issued
        ≡ patch_workload_status w (entered_at v) ∷ v.issued
  unfolding patch_workload_entry_time ◌>>=◌ get_now_time
  entry_issued g v =
      elim (Reply-cases
        (api.patch_workload_status w (entered_at v)
          (api.now (api.now_text time_layout v.server).1).1).0) [
            | inl (stored, h) ↦ rw h refl
            | inr (e, h) ↦ rw h refl
          ]

  Next-entry :
      {B : Type 0} (n : ℕ) (c : ChangePod) (before : List Call) (g : ChangePod → ChangeWorkload → B)
      (r : Outcome ChangePod) (v : World S)
      → IsNext n c
      → v.issued ≡ create_change_pod (api.own_change_pod w c) ∷ before
      → IsBegun n before
          (continue r
            (λ created. patch_workload_entry_time api w >>= λ patched. pure (g created patched))
            v).1.issued
  Next-entry n c before g (ok created) v h e = (
    c,
    h,
    inr (
      (api.now_text time_layout v.server).0,
      (api.now (api.now_text time_layout v.server).1).0,
      entry_issued (g created) v ∙ ap (λ cs. patch_workload_status w (entered_at v) ∷ cs) e,
    ),
  )
  Next-entry n c before g (err x) v h e = (c, h, inl e)
  Next-entry n c before g panic v h e = (c, h, inl e)

  begin_issued :
      {B : Type 0} (n : ℕ) (g : ChangePod → ChangeWorkload → B) (v : World S)
      → IsBegun n v.issued
          ((create_new_change_pod api w n >>= λ created.
              patch_workload_entry_time api w >>= λ patched. pure (g created patched))
            v).1.issued
  unfolding create_new_change_pod new_change_pod ◌>>=◌ get_now_time
  begin_issued n g v = Next-entry n _ v.issued g _ _ (refl, refl, refl, refl, refl) refl

  -- The world after the change pods were listed.
  abbrev pub after_list : World S → World S
  after_list s = (get_all_change_pods_by_workload api w s).1

  -- What was issued where the choice had the outcome `r`: nothing, unless it found a batch due.
  abbrev pub IsDecided : ℕ → Outcome Bool → List Call → List Call → Type 0
  IsDecided n r before after =
      ((r ≢ ok true) × (after ≡ before)) ⊎ ((r ≡ ok true) × IsBegun n before after)

  -- What follows the choice.
  abbrev chosen : {B : Type 0} → ℕ → (ChangePod → ChangeWorkload → B) → B → Bool → Exec S B
  chosen n g z necessary =
      if necessary
      then (create_new_change_pod api w n >>= λ created.
          patch_workload_entry_time api w >>= λ patched. pure (g created patched))
      else pure z

  Decided-chosen :
      {B : Type 0} (n : ℕ) (g : ChangePod → ChangeWorkload → B) (z : B) (r : Outcome Bool)
      (v : World S)
      → IsDecided n r v.issued (continue r (chosen n g z) v).1.issued
  unfolding ◌>>=◌
  Decided-chosen n g z (ok true) v = inr (refl, begin_issued n g v)
  Decided-chosen n g z (ok false) v = inl ((λ p. absurd cc), refl)
  Decided-chosen n g z (err e) v = inl ((λ p. absurd cc), refl)
  Decided-chosen n g z panic v = inl ((λ p. absurd cc), refl)

  Decided-choice :
      {B : Type 0} (n : ℕ) (b : Bool) (g : ChangePod → ChangeWorkload → B) (z : B) (v : World S)
      → IsDecided n
          (is_necessary api w b v).0
          v.issued
          ((is_necessary api w b >>= chosen n g z) v).1.issued
  unfolding ◌>>=◌
  Decided-choice n b g z v =
      let (r, v') = is_necessary api w b v in
      subst (λ before. IsDecided n r before (continue r (chosen n g z) v').1.issued)
        (quiet _ (Issues-is_necessary api w b) v) (Decided-chosen n g z r v')

  -- What the list of the change pods and the choice make of the calls.
  abbrev pub IsGuarded : Bool → World S → List Call → Type 0
  IsGuarded b s after =
      ((((e : Error) × (own_change_pods s.server ≡ failed e))
          ⊎ ((cs : List ChangePod) × (own_change_pods s.server ≡ done cs) × (any_init cs ≡ true)))
        × (after ≡ s.issued))
      ⊎ ((cs : List ChangePod) × (own_change_pods s.server ≡ done cs)
          × (any_init cs ≡ false)
          × IsDecided (length cs) (is_necessary api w b (after_list s)).0 s.issued after)

  -- A batch is begun exactly where the server listed the workload's change pods, none of them is in the
  -- initial status and the choice finds that one is due. Then one change pod is created, with the number
  -- after those listed, initial and without pods, and after it at most the workload is patched, in its
  -- entry times only. In every other case, an error included, nothing is written.
  pub ensure_init_change_pod-IsGuarded :
      (b : Bool) (s : World S) → IsGuarded b s (ensure_init_change_pod api w b s).1.issued
  unfolding ensure_init_change_pod is_exist_init_status_change_pod get_all_change_pods_by_workload
      ◌>>=◌
  ensure_init_change_pod-IsGuarded b s = elim (Reply-cases (own_change_pods s.server)) [
    | inr (e, h) ↦ inl (inl (e, h), rw h refl)
    | inl (cs, h) ↦ elim (Bool-cases (any_init cs)) [
      | inl t ↦ inl (inr (cs, h, t), rw (h, t) refl)
      | inr f ↦ inr (
        cs,
        h,
        f,
        rw (h, f)
            (Decided-choice (length cs) b (λ created patched. (some created, patched)) (none, w)
              (after_list s)),
      )
    ]
  ]
