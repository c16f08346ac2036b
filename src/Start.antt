-- ===== src/Start.antt =====
-- main.go: the start of the operator, and its restart in a loop without end. The panic of `NewApp`
-- (controllers/utils/client.go) is one of the ends of a round.
pub mod Rounds
pub mod Restarts
use altershield_operator.Base.{
  String, ℕ, zero, suc, Bool, false, List, [], ◌∷◌, ◌++◌, Option, none, some, ◌⊎◌, inl, inr,
  if◌then◌else◌, ◌==◌, map,
}
use altershield_operator.Exec.{Reply, done, failed}
use altershield_operator.Logs.{Invalid, Logger}

-- What is set up with a manager, in the order of the code.
pub data Component : Type 0 where
  deployment_reconciler pod_reconciler ops_config_info_reconciler : Component
  change_workload_reconciler change_pod_reconciler : Component
  deployment_webhook healthz_check readyz_check : Component

-- The goroutines that run for ever.
pub data Loop : Type 0 where
  config_run change_workload_timeout_valid_run : Loop
  change_pod_timeout_valid_run deployment_status_roll_back_run : Loop

-- What the start does, as far as it lasts.
pub data Event : Type 0 where
  makes_manager makes_app : Event
  sets_up : Component → Event
  starts_loop : Loop → Event
  runs_manager : Event

-- How a round of the loop ends: the loop goes on, the process exits with 1, or it panics.
pub data End : Type 0 where
  again exits panics : End

-- controller-runtime and Kubernetes' client: a manager can be refused, `kubernetes.NewForConfig` and a
-- set-up can fail, and `Start` returns with an error or without one. `ctrl.SetupSignalHandler` panics in
-- a process that has called it before.
pub record Runtime (S : Type 0) : Type 0 where
  pub new_manager : S → Reply (Unit {0}) × S
  pub new_for_config : S → Reply (Unit {0}) × S
  pub set_up : Component → S → Reply (Unit {0}) × S
  pub set_up_signal_handler : S → Option (Unit {0}) × S
  pub start_manager : S → Reply (Unit {0}) × S

-- The options of the manager: the flags have their defaults, for they are never parsed.
pub record Options : Type 0 where
  pub metrics_bind_address : String
  pub port : ℕ
  pub health_probe_bind_address : String
  pub leader_election : Bool
  pub leader_election_id : String
  pub cert_dir : Option String

abbrev default_options : Options
default_options = record {
  metrics_bind_address = ":8089";
  port = 1443;
  health_probe_bind_address = ":8088";
  leader_election = false;
  leader_election_id = "9f3eb48e.ops.cloud.alipay.com";
  cert_dir = none;
}

-- They are not made where the working directory is asked for and not found.
unfoldable pub options : String → Reply String → Option Options
options environment working_dir =
    if environment == "DEV"
    then elim working_dir [
      | done path ↦
          some (record default_options { cert_dir = some (Prim.Native.String.◌++◌ path "/certs") })
      | failed e ↦ none
    ]
    else some default_options

abbrev pub components : List Component
components =
    deployment_reconciler ∷ pod_reconciler ∷ ops_config_info_reconciler ∷ change_workload_reconciler
    ∷ change_pod_reconciler ∷ deployment_webhook ∷ healthz_check ∷ readyz_check ∷ []

abbrev pub loops : List Loop
loops =
    config_run ∷ change_workload_timeout_valid_run ∷ change_pod_timeout_valid_run
    ∷ deployment_status_roll_back_run ∷ []

-- The state of what lies outside, and what the start has done, in order.
abbrev pub Startup : Type 0 → Type 0
Startup S = S → (End × List Event) × S

module _ {S : Type 0} where
  -- Something is done, and the rest follows.
  abbrev pub after : List Event → (End × List Event) × S → (End × List Event) × S
  after events ((end, later), s) = ((end, events ++ later), s)

  -- A call whose error ends the round, and else is an event.
  abbrev pub ended_by : End → Event → Startup S → Reply (Unit {0}) × S → (End × List Event) × S
  ended_by end event rest (failed e, s) = ((end, []), s)
  ended_by end event rest (done x, s) = after (event ∷ []) (rest s)

  abbrev pub or_end : (S → Reply (Unit {0}) × S) → End → Event → Startup S → Startup S
  or_end call end event rest s = ended_by end event rest (call s)

  -- The loop goes on after a round, or has ended with it.
  abbrev pub and_again : Startup S → (End × List Event) × S → (End × List Event) × S
  and_again rest ((again, events), s) = after events (rest s)
  and_again rest ((exits, events), s) = ((exits, events), s)
  and_again rest ((panics, events), s) = ((panics, events), s)

  -- The manager runs till it is stopped. An error of it is logged and the loop goes on.
  abbrev pub ran : Reply (Unit {0}) × S → (End × List Event) × S
  ran (failed e, s) = ((again, runs_manager ∷ []), s)
  ran (done x, s) = ((exits, runs_manager ∷ []), s)

  abbrev pub handled_by :
      (S → Reply (Unit {0}) × S) → Option (Unit {0}) × S → (End × List Event) × S
  handled_by start_manager (none, s) = ((panics, []), s)
  handled_by start_manager (some x, s) = ran (start_manager s)

module _ {S : Type 0} (runtime : Runtime S) where
  open runtime use {new_manager, new_for_config, set_up, set_up_signal_handler, start_manager}

  -- The end of a round: the four loops, which are only started, and the manager.
  unfoldable pub run : Startup S
  run s = after (map starts_loop loops) (handled_by start_manager (set_up_signal_handler s))

  -- The set-ups, each of whose errors exits.
  unfoldable pub set_up_all : List Component → Startup S
  unfolding run
  set_up_all [] = run
  set_up_all (c ∷ cs) = or_end (set_up c) exits (sets_up c) (set_up_all cs)

  -- A round of the loop of `main`; `NewApp` panics where it gets no client.
  unfoldable pub round : Startup S
  unfolding set_up_all
  round =
      or_end new_manager again makes_manager
        (or_end new_for_config panics makes_app (set_up_all components))

  -- Some rounds of it: the loop ends with the first that exits or panics.
  unfoldable pub rounds : ℕ → Startup S
  unfolding round
  rounds zero s = ((again, []), s)
  rounds (suc n) s = and_again (rounds n) (round s)

  -- `main`, over some rounds: it exits before the first where the logger, the configuration of the
  -- cluster or the options are not made. The server of the routes runs beside it; that its failure exits
  -- the process is left out.
  unfoldable pub start : Invalid ⊎ Logger → Option (Unit {0}) → Option Options → ℕ → Startup S
  unfolding rounds
  start (inl e) config opts n s = ((exits, []), s)
  start (inr logger) none opts n s = ((exits, []), s)
  start (inr logger) (some config) none n s = ((exits, []), s)
  start (inr logger) (some config) (some opts) n s = rounds n s
