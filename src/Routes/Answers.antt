-- ===== src/Routes/Answers.antt =====
-- How a request runs under `Cors`.
use altershield_operator.Base.{
  String, ◌≡◌, ◌≢◌, refl, ◌∷◌, ◌==◌, if◌then◌else◌, Bool-cases, inl, inr,
}
use altershield_operator.Callback.{json}
use altershield_operator.Calls.{respond}
use altershield_operator.Client.{Client}
use altershield_operator.Exec.{Outcome, ok, err, panic, World, Exec, pure, write, ◌>>=◌}
use altershield_operator.Routes.{recovered, guarded, cors}

module _ {S : Type 0} where
  pub recovered_lem :
      (r : Outcome (Unit {0}) × World S) → ((recovered r).0 ≢ panic) × ((recovered r).1 ≡ r.1)
  recovered_lem (ok a, w) = (λ h. cc, refl)
  recovered_lem (err e, w) = (λ h. cc, refl)
  recovered_lem (panic, w) = (λ h. cc, refl)

module _ {S : Type 0} (api : Client S) where
  -- `Cors` never panics, whatever the next handlers do. It answers 200 before them where the method is
  -- `OPTIONS` and nothing otherwise, and runs them in both cases; all that is written is theirs.
  pub cors_lem :
      (method : String) (next : Exec S (Unit {0})) (w : World S)
      → ((cors api method next w).0 ≢ panic)
        × ((cors api method next w).1
            ≡ (next (
                if method == "OPTIONS" then record w { issued = respond 200 ∷ w.issued } else w)).1)
  unfolding cors guarded json write pure ◌>>=◌
  cors_lem method next w = elim (Bool-cases (method == "OPTIONS")) [
    | inl e ↦ rw e (recovered_lem (next (record w { issued = respond 200 ∷ w.issued })))
    | inr e ↦ rw e (recovered_lem (next w))
  ]
