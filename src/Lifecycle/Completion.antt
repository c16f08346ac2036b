-- ===== src/Lifecycle/Completion.antt =====
-- The whole course of one batch through the controller and the callback.
use mathlib.Core.Path.{subst}
use altershield_operator.Base.{String, ◌≡◌, sym, true, ℕ, suc, map, ◌==◌}
use altershield_operator.Base.Int.{pos}
use altershield_operator.Callback.{check_callback_handler, with_verdict, check_type_batch}
use altershield_operator.Client.{Client}
use altershield_operator.Exec.{done, Exec, ◌>>◌}
use altershield_operator.Exec.Leads.{Leads, Leads-ask, Leads-attempt, Leads-some, Leads-known}
use altershield_operator.ChangePods.Reconcile.{dispatch, with_change_pod, reconcile}
use altershield_operator.Lifecycle.Server.{IsServing, key_of}
use altershield_operator.Types.{ChangePod, ChangePodStatus, ChangeWorkload, NamespacedName}
use altershield_operator.Types.Opscloud.{CallbackWrapperRequest}
use altershield_operator.Types.State.{ChangePodState, post_finish, execute_done}

-- A callback for a batch at a stage, for the node that the service gave.
abbrev pub IsFor : String → String → CallbackWrapperRequest → Type 0
IsFor id at r =
    ((r.change_check_type == check_type_batch) ≡ true)
    × (r.callback_request.node_id ≡ id)
    × (r.callback_request.defense_stage_enum ≡ at)

-- A change pod of these pods that is done, with the verdict of the second callback for each of them.
abbrev pub IsComplete : String → CallbackWrapperRequest → ChangePod → ChangePodStatus → Type 0
IsComplete id after c t =
    (t.status ≡ execute_done)
    × (t.message ≡ post_finish)
    × (t.change_pod_id ≡ id)
    × (t.pod_results ≡ map (with_verdict after.callback_request.verdict) c.spec.pod_infos)

module _ {S : Type 0} (api : Client S) where
  -- The requests of one batch: five of the reconciler and the two callbacks of the service.
  abbrev pub batch_run :
      NamespacedName → CallbackWrapperRequest → CallbackWrapperRequest → Exec S (Unit {0})
  batch_run key before after = do
    reconcile api key
    reconcile api key
    check_callback_handler api (done before)
    reconcile api key
    check_callback_handler api (done after)
    reconcile api key

module _ {S : Type 0} (api : Client S) (id : String) (Is : ChangePod → S → Type 0)
    (serves : IsServing api id Is) where
  pub Leads-reconcile :
      (c : ChangePod) (st : ChangePodState) (R : S → Type 0)
      → c.status.status ≡ st
      → ((w : ChangeWorkload) (n : ℕ)
          → w.spec.count_threshold ≡ pos (suc n)
          → Leads (Is c) (dispatch api st c w) (λ _ s. R s))
      → Leads (Is c) (reconcile api (key_of c)) (λ _ s. R s)
  unfolding reconcile with_change_pod
  Leads-reconcile c st R e h = Leads-attempt _ _ (Leads-ask _ (serves.gets c)) (λ d.
      Leads-known (λ x. with_change_pod api (done x)) d c
        (Leads-attempt _ _ (Leads-ask _ (serves.has_workload c)) (λ w. Leads-some _ (λ (n, t).
          subst (λ x. Leads (Is c) (dispatch api x c w) (λ _ s. R s)) (sym e) (h w n t)))))
