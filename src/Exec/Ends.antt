-- ===== src/Exec/Ends.antt =====
-- Which actions never panic, one rule for each way to build an action.
use altershield_operator.Base.{◌≡◌, ◌≢◌, refl, Bool, true, false, if◌then◌else◌}
use altershield_operator.Exec.{
  Error, Reply, done, failed, Outcome, ok, err, panic, World, Exec, answer, caught, pure, raise,
  ask, sample, attempt, ◌>>=◌, continue,
}

-- From every world the action ends with a value or an error.
pub record Ends {S A : Type 0} (m : Exec S A) : Type 0 where
  pub at : (w : World S) → (m w).0 ≢ panic

module _ {A : Type 0} where
  answer-ne-panic : (r : Reply A) → answer r ≢ panic
  answer-ne-panic (done a) h = cc
  answer-ne-panic (failed e) h = cc

module _ {S A : Type 0} where
  pub Ends-pure : (a : A) → Ends {S = S} (pure a)
  unfolding pure
  Ends-pure a = record { at = λ w h. cc }

  pub Ends-raise : (e : Error) → Ends {S = S} {A = A} (raise e)
  unfolding raise
  Ends-raise e = record { at = λ w h. cc }

  pub Ends-ask : (f : S → Reply A × S) → Ends (ask f)
  unfolding ask
  Ends-ask f = record { at = λ w. answer-ne-panic (f w.server).0 }

  pub Ends-sample : (f : S → A × S) → Ends (sample f)
  unfolding sample
  Ends-sample f = record { at = λ w h. cc }

  pub Ends-if : (b : Bool) (m n : Exec S A) → Ends m → Ends n → Ends (if b then m else n)
  Ends-if true m n hm hn = hm
  Ends-if false m n hm hn = hn

module _ {S A B : Type 0} where
  Ends-continue :
      (o : Outcome A) (f : A → Exec S B) (w : World S)
      → o ≢ panic
      → ((a : A) → Ends (f a))
      → (continue o f w).0 ≢ panic
  Ends-continue (ok a) f w h k = (k a).at w
  Ends-continue (err e) f w h k = λ p. cc
  Ends-continue panic f w h k = absurd (h refl)

  pub Ends-bind :
      (m : Exec S A) (f : A → Exec S B) → Ends m → ((a : A) → Ends (f a)) → Ends (m >>= f)
  unfolding ◌>>=◌
  Ends-bind m f hm hf = record { at = λ w. Ends-continue (m w).0 f (m w).1 (hm.at w) hf }

  handled :
      (r : Outcome A × World S) (f : Reply A → Exec S B)
      → r.0 ≢ panic
      → (reply : Reply A) × (continue (caught r).0 f (caught r).1 ≡ f reply r.1)
  handled (ok a, w) f h = (done a, refl)
  handled (err e, w) f h = (failed e, refl)
  handled (panic, w) f h = absurd (h refl)

  -- Where an action never panics, what handles its result is always reached.
  pub attempt-handled :
      (m : Exec S A) (f : Reply A → Exec S B)
      → Ends m
      → (w : World S) → (reply : Reply A) × ((attempt m >>= f) w ≡ f reply (m w).1)
  unfolding attempt ◌>>=◌
  attempt-handled m f h w = handled (m w) f (h.at w)
