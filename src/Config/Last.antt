-- ===== src/Config/Last.antt =====
-- The configuration that the getters of the configuration give.
use altershield_operator.Base.{◌≡◌, refl, Bool, List, [], ◌∷◌, Option, none, some}
use altershield_operator.Base.Int.{ℤ}
use altershield_operator.Config.{
  Config, initial, Message, batch_value, count_value, blocking_value, receive, config_run,
  config_is_batch, config_batch_count, config_is_blocking_up,
}

-- The last value that came through each channel, and the given one where none did.
abbrev pub last_batch : Option Bool → List Message → Option Bool
last_batch v [] = v
last_batch v (batch_value x ∷ ms) = last_batch (some x) ms
last_batch v (_ ∷ ms) = last_batch v ms

abbrev pub last_count : Option ℤ → List Message → Option ℤ
last_count v [] = v
last_count v (count_value x ∷ ms) = last_count (some x) ms
last_count v (_ ∷ ms) = last_count v ms

abbrev pub last_blocking : Option Bool → List Message → Option Bool
last_blocking v [] = v
last_blocking v (blocking_value x ∷ ms) = last_blocking (some x) ms
last_blocking v (_ ∷ ms) = last_blocking v ms

-- What the three getters give in one state.
abbrev pub given : Config → Option Bool × Option ℤ × Option Bool
given c = (config_is_batch (c ∷ []), config_batch_count (c ∷ []), config_is_blocking_up (c ∷ []))

run_from :
    (c : Config) (ms : List Message)
    → given (config_run c ms) ≡ (
      last_batch (config_is_batch (c ∷ [])) ms,
      last_count (config_batch_count (c ∷ [])) ms,
      last_blocking (config_is_blocking_up (c ∷ [])) ms,
    )
unfolding config_run receive config_is_batch config_batch_count config_is_blocking_up
run_from c [] = refl
run_from c (batch_value x ∷ ms) = run_from (receive c (batch_value x)) ms
run_from c (count_value x ∷ ms) = run_from (receive c (count_value x)) ms
run_from c (blocking_value x ∷ ms) = run_from (receive c (blocking_value x)) ms

-- After any sequence of messages, each getter gives the last value that came through its own channel,
-- whatever came through the other two, and waits if none did.
pub config_run_last :
    (ms : List Message)
    → given (config_run initial ms)
      ≡ (last_batch none ms, last_count none ms, last_blocking none ms)
unfolding config_is_batch config_batch_count config_is_blocking_up
config_run_last ms = run_from initial ms
