-- ===== src/Config.antt =====
-- controllers/utils/config.go: the configuration variables, their change by the channels, and the
-- getters that wait until a variable is ready.
pub mod Last
use altershield_operator.Base.{Bool, true, false, List, [], ◌∷◌, Option, none, some, if◌then◌else◌}
use altershield_operator.Base.Int.{ℤ, pos}

pub record Config : Type 0 where
  pub is_batch : Bool
  pub batch_count : ℤ
  pub is_blocking_up : Bool
  pub is_batch_ready : Bool
  pub batch_count_ready : Bool
  pub is_blocking_up_ready : Bool

-- The initial values of the variables.
abbrev pub initial : Config
initial = record {
  is_batch = false;
  batch_count = pos 1;
  is_blocking_up = true;
  is_batch_ready = false;
  batch_count_ready = false;
  is_blocking_up_ready = false;
}

-- A value that arrives on one of the three channels.
pub data Message : Type 0 where
  batch_value : Bool → Message
  count_value : ℤ → Message
  blocking_value : Bool → Message

-- The `select` of `ConfigRun`.
unfoldable pub receive : Config → Message → Config
receive c (batch_value v) = record c { is_batch = v; is_batch_ready = true }
receive c (count_value v) = record c { batch_count = v; batch_count_ready = true }
receive c (blocking_value v) = record c { is_blocking_up = v; is_blocking_up_ready = true }

-- The loop of `ConfigRun` over the messages so far.
unfoldable pub config_run : Config → List Message → Config
unfolding receive
config_run c [] = c
config_run c (m ∷ ms) = config_run (receive c m) ms

-- The getters, over the states that they see at each look: they wait while the variable is not ready,
-- and `none` is that they wait still.
unfoldable pub config_is_batch : List Config → Option Bool
config_is_batch [] = none
config_is_batch (c ∷ cs) =
    let later = config_is_batch cs in if c.is_batch_ready then some c.is_batch else later

unfoldable pub config_batch_count : List Config → Option ℤ
config_batch_count [] = none
config_batch_count (c ∷ cs) =
    let later = config_batch_count cs in if c.batch_count_ready then some c.batch_count else later

unfoldable pub config_is_blocking_up : List Config → Option Bool
config_is_blocking_up [] = none
config_is_blocking_up (c ∷ cs) =
    let later = config_is_blocking_up cs in
    if c.is_blocking_up_ready then some c.is_blocking_up else later
