-- ===== src/Utils/Percent.antt =====
-- `Percent` of controllers/utils/common_utils.go, which turns the configured percentage into the
-- number of pods of a batch.
use altershield_operator.Base.{
  ℕ, ◌*◌, ◌/◌, ◌≤◌, ◌<◌, ◌^◌, ◌≡◌, arith, ◌||◌, if◌then◌else◌, ltb, eqb,
}
use altershield_operator.Base.Int.{ℤ, pos, mul64, mul64_small, div_ℤ, ltb_ℤ, eqb_ℤ}

unfoldable pub percent : ℤ → ℤ → ℤ
percent value rate =
    let result = div_ℤ (mul64 value rate) 100 in
    if eqb_ℤ rate (pos 0) || eqb_ℤ value (pos 0)
    then pos 1
    else if ltb_ℤ (pos 100) rate
    then value
    else if ltb_ℤ result (pos 0)
    then pos 1
    else result

share_bound : (n r : ℕ) → r ≤ 100 → n * r ≤ n * 100
share_bound n r h = grind arith

-- For a positive replica count below 2^31, at every non-negative rate: the batch size is 1 at rate 0,
-- the count above rate 100, and else the exact share rounded down, with no overflow on the way; it
-- is never more than the count.
pub percent_bounds :
    (n r : ℕ)
    → 0 < n
    → n < 2 ^ 31
    → (percent (pos n) (pos r) ≡ pos (if eqb r 0 then 1 else if ltb 100 r then n else n * r / 100))
      × ((if eqb r 0 then 1 else if ltb 100 r then n else n * r / 100) ≤ n)
unfolding percent
percent_bounds n r hn h = ground (arith, share_bound n r, mul64_small n r)

-- A rate from 1 to 100 whose share of the replicas is below one pod gives a batch of no pods.
pub percent_zero :
    (n r : ℕ) → 0 < n → 0 < r → r ≤ 100 → n * r < 100 → percent (pos n) (pos r) ≡ pos 0
unfolding percent
percent_zero n r hn hr hl h = ground (arith, mul64_small n r)
