-- ===== src/Witnesses/Starts.antt =====
-- The theorems about the start of the operator, applied to a cluster whose manager always stops with an
-- error.
use altershield_operator.Base.{refl, Bool, true, false, none, some}
use altershield_operator.Exec.{done, failed}
use altershield_operator.Start.{Runtime, round, rounds}
use altershield_operator.Start.Rounds.{IsRound, round-IsRound}
use altershield_operator.Start.Restarts.{OncePerProcess, IsIdle, rounds-IsIdle}
use altershield_operator.Witnesses.Sample.{missing}

-- The state tells whether the signal handler was set up.
abbrev cluster : Runtime Bool
cluster = record {
  new_manager = λ s. (done tt, s);
  new_for_config = λ s. (done tt, s);
  set_up = λ c s. (done tt, s);
  set_up_signal_handler = elim [ true ↦ (none, true) | false ↦ (some tt, true) ];
  start_manager = λ s. (failed missing, s);
}

once : OncePerProcess cluster
once = record {
  called = λ s. s;
  called_by = elim [ true ↦ refl | false ↦ refl ];
  refuses = elim [ true ↦ λ e. refl | false ↦ λ e. absurd cc ];
  by_manager = λ s e. e;
  by_config = λ s e. e;
  by_set_up = λ c s e. e;
  by_start = λ s e. e;
}

round-IsRound_example : IsRound (round cluster false).0
round-IsRound_example = round-IsRound cluster false

rounds-IsIdle_example : IsIdle (rounds cluster 3 (round cluster false).1).0.1
unfolding round
rounds-IsIdle_example = rounds-IsIdle cluster once false refl (λ h. cc) 3
