-- ===== src/Start/Restarts.antt =====
-- What becomes of a restart after the manager stopped with an error.
use altershield_operator.Base.{
  ◌≡◌, ◌≢◌, refl, ℕ, zero, suc, Bool, true, List, [], ◌∷◌, ◌++◌, Option, none, some, map, All,
}
use altershield_operator.Exec.{Reply, done, failed}
use altershield_operator.Start.{
  Component, Event, makes_manager, makes_app, sets_up, starts_loop, runs_manager, End, again, exits,
  panics, Runtime, components, Loop, loops, Startup, after, ended_by, or_end, ran, handled_by, run,
  set_up_all, round, and_again, rounds,
}

-- What is documented of `ctrl.SetupSignalHandler`: from its first call on, each call of it panics.
-- `called` tells whether there was one, which no other call changes.
pub record OncePerProcess {S : Type 0} (runtime : Runtime S) : Type 0 where
  pub called : S → Bool
  pub called_by : (s : S) → called (runtime.set_up_signal_handler s).1 ≡ true
  pub refuses : (s : S) → called s ≡ true → (runtime.set_up_signal_handler s).0 ≡ none
  pub by_manager : (s : S) → called s ≡ true → called (runtime.new_manager s).1 ≡ true
  pub by_config : (s : S) → called s ≡ true → called (runtime.new_for_config s).1 ≡ true
  pub by_set_up : (c : Component) (s : S) → called s ≡ true → called (runtime.set_up c s).1 ≡ true
  pub by_start : (s : S) → called s ≡ true → called (runtime.start_manager s).1 ≡ true

abbrev pub IsRun : Event → Type 0
IsRun runs_manager = Unit
IsRun _ = ⊥

-- The manager is not run.
abbrev pub IsIdle : List Event → Type 0
IsIdle events = All (λ e. IsRun e → ⊥) events

IsIdle-append : (xs ys : List Event) → IsIdle xs → IsIdle ys → IsIdle (xs ++ ys)
IsIdle-append [] ys h k = k
IsIdle-append (x ∷ xs) ys (p, h) k = (p, IsIdle-append xs ys h k)

IsIdle-loops : (ls : List Loop) → IsIdle (map starts_loop ls)
IsIdle-loops [] = tt
IsIdle-loops (l ∷ ls) = (λ h. h, IsIdle-loops ls)

module _ {S : Type 0} (P : S → Type 0) where
  -- A part of the start that does not run the manager and keeps what is known of the state.
  abbrev IsQuiet : (End × List Event) × S → Type 0
  IsQuiet r = IsIdle r.0.1 × P r.1

  IsQuiet-after :
      (events : List Event) (r : (End × List Event) × S)
      → IsIdle events
      → IsQuiet r
      → IsQuiet (after events r)
  IsQuiet-after events ((end, later), s) h (k, p) = (IsIdle-append events later h k, p)

  IsQuiet-ended_by :
      (end : End) (event : Event) (rest : Startup S) (r : Reply (Unit {0}) × S)
      → (IsRun event → ⊥)
      → P r.1
      → ((s : S) → P s → IsQuiet (rest s))
      → IsQuiet (ended_by end event rest r)
  IsQuiet-ended_by end event rest (failed e, s) n p h = (tt, p)
  IsQuiet-ended_by end event rest (done x, s) n p h =
      IsQuiet-after (event ∷ []) (rest s) (n, tt) (h s p)

  IsQuiet-handled_by :
      (start_manager : S → Reply (Unit {0}) × S) (r : Option (Unit {0}) × S)
      → r.0 ≡ none
      → P r.1
      → IsQuiet (handled_by start_manager r)
  IsQuiet-handled_by start_manager (none, s) e p = (tt, p)
  IsQuiet-handled_by start_manager (some x, s) e p = absurd cc

  IsQuiet-and_again :
      (rest : Startup S) (r : (End × List Event) × S)
      → IsQuiet r
      → ((s : S) → P s → IsQuiet (rest s))
      → IsQuiet (and_again rest r)
  IsQuiet-and_again rest ((again, events), s) (h, p) k = IsQuiet-after events (rest s) h (k s p)
  IsQuiet-and_again rest ((exits, events), s) q k = q
  IsQuiet-and_again rest ((panics, events), s) q k = q

  -- What is known of the state where the loop goes on after something was done.
  abbrev Marks : (End × List Event) × S → Type 0
  Marks r = r.0.0 ≡ again → P r.1

  Marks-ended_by :
      (end : End) (event : Event) (rest : Startup S) (r : Reply (Unit {0}) × S)
      → end ≢ again
      → ((s : S) → Marks (rest s))
      → Marks (ended_by end event rest r)
  Marks-ended_by end event rest (failed e, s) n h = λ g. absurd (n g)
  Marks-ended_by end event rest (done x, s) n h = h s

  Marks-handled_by :
      (start_manager : S → Reply (Unit {0}) × S) (r : Option (Unit {0}) × S)
      → P r.1
      → ((s : S) → P s → P (start_manager s).1)
      → Marks (handled_by start_manager r)
  Marks-handled_by start_manager (none, s) p h = λ g. absurd cc
  Marks-handled_by start_manager (some x, s) p h = go (start_manager s) (h s p)
    where
      go : (r : Reply (Unit {0}) × S) → P r.1 → Marks (ran r)
      go (failed e, t) q = λ g. q
      go (done y, t) q = λ g. q

module _ {S : Type 0} (runtime : Runtime S) (once : OncePerProcess runtime) where
  open runtime use {new_manager, new_for_config, set_up, set_up_signal_handler, start_manager}
  open once use {called, called_by, refuses, by_manager, by_config, by_set_up, by_start}

  abbrev Called : S → Type 0
  Called s = called s ≡ true

  IsQuiet-set_up_all :
      (cs : List Component) (s : S) → Called s → IsQuiet Called (set_up_all runtime cs s)
  unfolding set_up_all run
  IsQuiet-set_up_all [] s p =
      IsQuiet-after Called (map starts_loop loops)
        (handled_by start_manager (set_up_signal_handler s)) (IsIdle-loops loops)
        (IsQuiet-handled_by Called start_manager (set_up_signal_handler s) (refuses s p)
          (called_by s))
  IsQuiet-set_up_all (c ∷ cs) s p =
      IsQuiet-ended_by Called exits (sets_up c) (set_up_all runtime cs) (set_up c s) (λ h. h)
        (by_set_up c s p) (IsQuiet-set_up_all cs)

  IsQuiet-round : (s : S) → Called s → IsQuiet Called (round runtime s)
  unfolding round
  IsQuiet-round s p =
      IsQuiet-ended_by Called again makes_manager
        (or_end new_for_config panics makes_app (set_up_all runtime components)) (new_manager s)
        (λ h. h) (by_manager s p)
        (λ t q.
          IsQuiet-ended_by Called panics makes_app (set_up_all runtime components)
            (new_for_config t) (λ h. h) (by_config t q) (IsQuiet-set_up_all components))

  IsQuiet-rounds : (n : ℕ) (s : S) → Called s → IsQuiet Called (rounds runtime n s)
  unfolding rounds
  IsQuiet-rounds zero s p = (tt, p)
  IsQuiet-rounds (suc n) s p =
      IsQuiet-and_again Called (rounds runtime n) (round runtime s) (IsQuiet-round s p)
        (IsQuiet-rounds n)

  Marks-set_up_all : (cs : List Component) (s : S) → Marks Called (set_up_all runtime cs s)
  unfolding set_up_all run
  Marks-set_up_all [] s =
      Marks-handled_by Called start_manager (set_up_signal_handler s) (called_by s) by_start
  Marks-set_up_all (c ∷ cs) s =
      Marks-ended_by Called exits (sets_up c) (set_up_all runtime cs) (set_up c s) (λ h. cc)
        (Marks-set_up_all cs)

  marked :
      (r : Reply (Unit {0}) × S)
      → (ended_by again makes_manager
          (or_end new_for_config panics makes_app (set_up_all runtime components))
          r).0.1
        ≢ []
      → Marks Called (
          ended_by again makes_manager
            (or_end new_for_config panics makes_app (set_up_all runtime components))
            r)
  marked (failed e, s) ne = λ g. absurd (ne refl)
  marked (done x, s) ne =
      Marks-ended_by Called panics makes_app (set_up_all runtime components) (new_for_config s)
        (λ h. cc) (Marks-set_up_all components)

  -- A manager that stopped with an error is never run again: where `ctrl.SetupSignalHandler` panics from
  -- its second call on, and a round of the loop of `main` did something and goes on, no number of further
  -- rounds runs a manager, whatever the other calls answer.
  pub rounds-IsIdle :
      (s : S)
      → (round runtime s).0.0 ≡ again
      → (round runtime s).0.1 ≢ []
      → (n : ℕ) → IsIdle (rounds runtime n (round runtime s).1).0.1
  unfolding round
  rounds-IsIdle s goes ne n =
      (IsQuiet-rounds n (round runtime s).1 (marked (new_manager s) ne goes)).0
