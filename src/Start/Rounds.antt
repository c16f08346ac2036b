-- ===== src/Start/Rounds.antt =====
-- In which order a round of the start does what it does.

use altershield_operator.Base.{
  ◌≡◌, ◌≢◌, refl, ap, List, [], ◌∷◌, ◌++◌, Option, none, some, ◌⊎◌, inl, inr, map,
}
use altershield_operator.Exec.{Reply, done, failed}
use altershield_operator.Start.{
  Component, Event, makes_manager, makes_app, sets_up, starts_loop, runs_manager, End, again, exits,
  panics, Runtime, components, loops, Startup, after, ended_by, or_end, ran, handled_by, run,
  set_up_all, round, Loop, deployment_reconciler, pod_reconciler, ops_config_info_reconciler,
  change_workload_reconciler, change_pod_reconciler, deployment_webhook, healthz_check,
  readyz_check, config_run, change_workload_timeout_valid_run, change_pod_timeout_valid_run,
  deployment_status_roll_back_run,
}

-- What a round does that sets up the given components, in order.
abbrev whole_from : List Component → List Event
whole_from cs = map sets_up cs ++ (map starts_loop loops ++ (runs_manager ∷ []))

-- What a whole round does, in order: the manager and the client, the five controllers, the webhook, the two
-- checks, the four loops, and the run of the manager.
abbrev pub whole : List Event
whole =
    makes_manager
    ∷ makes_app
    ∷ sets_up deployment_reconciler
    ∷ sets_up pod_reconciler
    ∷ sets_up ops_config_info_reconciler
    ∷ sets_up change_workload_reconciler
    ∷ sets_up change_pod_reconciler
    ∷ sets_up deployment_webhook
    ∷ sets_up healthz_check
    ∷ sets_up readyz_check
    ∷ starts_loop config_run
    ∷ starts_loop change_workload_timeout_valid_run
    ∷ starts_loop change_pod_timeout_valid_run
    ∷ starts_loop deployment_status_roll_back_run
    ∷ runs_manager
    ∷ []

-- The first of the expected events were done, and all of them where the loop goes on.
abbrev pub Follows : List Event → End × List Event → Type 0
Follows expected (end, events) =
    ((rest : List Event) × (expected ≡ events ++ rest)) × (end ≡ again → events ≡ expected)

-- The first of the events of a whole round were done; the loop goes on only after none or all of them.
abbrev pub IsRound : End × List Event → Type 0
IsRound (end, events) =
    ((rest : List Event) × (whole ≡ events ++ rest))
    × (end ≡ again → (events ≡ []) ⊎ (events ≡ whole))

Follows-none : (expected : List Event) (end : End) → end ≢ again → Follows expected (end, [])
Follows-none expected end h = ((expected, refl), λ e. absurd (h e))

module _ {S : Type 0} where
  Follows-after :
      (event : Event) (expected : List Event) (r : (End × List Event) × S)
      → Follows expected r.0
      → Follows (event ∷ expected) (after (event ∷ []) r).0
  Follows-after event expected ((end, events), s) ((rest, e), h) =
      ((rest, ap (λ l. event ∷ l) e), λ g. ap (λ l. event ∷ l) (h g))

  Follows-ended_by :
      (end : End) (event : Event) (expected : List Event) (rest : Startup S)
      (r : Reply (Unit {0}) × S)
      → end ≢ again
      → ((t : S) → Follows expected (rest t).0)
      → Follows (event ∷ expected) (ended_by end event rest r).0
  Follows-ended_by end event expected rest (failed e, s) ne h = Follows-none _ end ne
  Follows-ended_by end event expected rest (done x, s) ne h = Follows-after event _ (rest s) (h s)

  Follows-ran : (r : Reply (Unit {0}) × S) → Follows (runs_manager ∷ []) (ran r).0
  Follows-ran (failed e, s) = (([], refl), λ h. refl)
  Follows-ran (done x, s) = (([], refl), λ h. absurd cc)

  Follows-handled_by :
      (start_manager : S → Reply (Unit {0}) × S) (r : Option (Unit {0}) × S)
      → Follows (runs_manager ∷ []) (handled_by start_manager r).0
  Follows-handled_by start_manager (none, s) = Follows-none _ panics (λ h. cc)
  Follows-handled_by start_manager (some x, s) = Follows-ran (start_manager s)

  Follows-loops :
      (ls : List Loop) (r : (End × List Event) × S)
      → Follows (runs_manager ∷ []) r.0
      → Follows (map starts_loop ls ++ (runs_manager ∷ [])) (after (map starts_loop ls) r).0
  Follows-loops [] ((end, events), s) h = h
  Follows-loops (l ∷ ls) ((end, events), s) h =
      Follows-after (starts_loop l) _ ((end, map starts_loop ls ++ events), s)
        (Follows-loops ls ((end, events), s) h)

module _ {S : Type 0} (runtime : Runtime S) where
  open runtime use {new_manager, new_for_config, set_up, set_up_signal_handler, start_manager}

  Follows-set_up_all :
      (cs : List Component) (s : S) → Follows (whole_from cs) (set_up_all runtime cs s).0
  unfolding set_up_all run
  Follows-set_up_all [] s =
      Follows-loops loops (handled_by start_manager (set_up_signal_handler s))
        (Follows-handled_by start_manager (set_up_signal_handler s))
  Follows-set_up_all (c ∷ cs) s =
      Follows-ended_by exits (sets_up c) (whole_from cs) (set_up_all runtime cs) (set_up c s)
        (λ h. cc) (Follows-set_up_all cs)

  Follows-IsRound :
      (r : Reply (Unit {0}) × S)
      → IsRound
          (ended_by again makes_manager
            (or_end new_for_config panics makes_app (set_up_all runtime components))
            r).0
  Follows-IsRound (failed e, s) = ((whole, refl), λ h. inl refl)
  Follows-IsRound (done x, s) =
      let ((rest, e), h) =
        Follows-ended_by panics makes_app (whole_from components) (set_up_all runtime components)
          (new_for_config s) (λ h. cc) (Follows-set_up_all components) in
      ((rest, ap (λ l. makes_manager ∷ l) e), λ g. inr (ap (λ l. makes_manager ∷ l) (h g)))

  -- Whatever fails, a round of the loop of `main` does the first of these, in this order, and no more: it
  -- makes a manager and a client, sets up each of the five controllers, the webhook and the two checks,
  -- starts each of the four loops once, and runs the manager. It goes on to another round only where it made no manager,
  -- or did all of them.
  pub round-IsRound : (s : S) → IsRound (round runtime s).0
  unfolding round
  round-IsRound s = Follows-IsRound (new_manager s)
