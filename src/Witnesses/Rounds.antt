-- ===== src/Witnesses/Rounds.antt =====
-- A round of each timeout loop, from a server with late objects.
use altershield_operator.Base.{[], ◌∷◌}
use altershield_operator.Base.Int.{pos}
use altershield_operator.Client.{Client}
use altershield_operator.Exec.{World, done, failed}
use altershield_operator.Timeouts.{change_pod_timeout_round, change_workload_timeout_round}
use altershield_operator.Timeouts.Exact.{
  ClosesBoth, ClosesAll, listed_running, timeout_rounds-AreExact,
}
use altershield_operator.Timeouts.{listed}
use altershield_operator.Timeouts.Closing.{is_late_workload, given_up}
use altershield_operator.Types.State.{pre_submitted}
use altershield_operator.Witnesses.Sample.{server, missing, change_pod_in}

-- The clock stands long after the submission, each list is the same, and every write fails.
abbrev late_server : Client (Unit {0})
late_server = record (server {S = Unit {0}}) {
  now = λ s. (pos 100000, s);
  list_change_pods = λ field value s. (done (change_pod_in pre_submitted [] ∷ []), s);
  update_change_pod_status = λ c s. (failed missing, s);
}

abbrev late_world : World (Unit {0})
late_world = record { server = tt; issued = [] }

timeout_rounds-AreExact_example :
    ClosesBoth late_server late_world (change_pod_timeout_round late_server late_world)
    × ClosesAll late_server is_late_workload given_up
        (listed (listed_running late_server tt).0)
        late_world
        (change_workload_timeout_round late_server late_world)
timeout_rounds-AreExact_example = timeout_rounds-AreExact late_server late_world
