-- ===== src/Exec.antt =====
-- Go functions that call the API server: they return a value or an error, or panic, and change the
-- world beside it. The world is the state of everything outside the operator, and the record of the
-- writes that the operator has issued, the latest first, whether the server accepted them or not.
pub mod Issues
pub mod Ends
pub mod Leads
use altershield_operator.Base.{
  String, Bool, List, ◌∷◌, Option, none, some, if◌then◌else◌, ◌≡◌, refl, ◌⊎◌, inl, inr,
}
use altershield_operator.Calls.{Call}

-- `errors.IsNotFound(err)` and `err.Error()`.
pub record Error : Type 0 where
  pub not_found : Bool
  pub message : String

-- What a call of a library returns.
pub data Reply {ℓ} (A : Type ℓ) : Type ℓ where
  done : A → Reply A
  failed : Error → Reply A

pub data Outcome {ℓ} (A : Type ℓ) : Type ℓ where
  ok : A → Outcome A
  err : Error → Outcome A
  panic : Outcome A

pub Reply-cases {ℓ} :
    {A : Type ℓ} (r : Reply A) → ((a : A) × (r ≡ done a)) ⊎ ((e : Error) × (r ≡ failed e))
Reply-cases (done a) = inl (a, refl)
Reply-cases (failed e) = inr (e, refl)

pub record World (S : Type 0) : Type 0 where
  pub server : S
  pub issued : List Call

abbrev pub Exec : Type 0 → Type 0 → Type 0
Exec S A = World S → Outcome A × World S

abbrev pub answer : {A : Type 0} → Reply A → Outcome A
answer (done a) = ok a
answer (failed e) = err e

module _ {S A : Type 0} where
  abbrev pub caught : Outcome A × World S → Outcome (Reply A) × World S
  caught (ok a, w) = (ok (done a), w)
  caught (err e, w) = (ok (failed e), w)
  caught (panic, w) = (panic, w)

  unfoldable pub pure : A → Exec S A
  pure a w = (ok a, w)

  pub raise : Error → Exec S A
  raise e w = (err e, w)

  pub crash : Exec S A
  crash w = (panic, w)

  -- A dereference of a nil pointer, or a write to a nil map, panics.
  pub or_crash : Option A → Exec S A
  or_crash none w = (panic, w)
  or_crash (some a) w = (ok a, w)

  -- A call of the server that reads.
  pub ask : (S → Reply A × S) → Exec S A
  ask f w = (answer (f w.server).0, record w { server = (f w.server).1 })

  -- A call that writes: it is recorded when it is issued.
  unfoldable pub write : Call → (S → Reply A × S) → Exec S A
  write c f w = (answer (f w.server).0, record { server = (f w.server).1; issued = c ∷ w.issued })

  -- A value of the environment that cannot fail to be read, such as the clock's.
  pub sample : (S → A × S) → Exec S A
  sample f w = (ok (f w.server).0, record w { server = (f w.server).1 })

module _ {S A : Type 0} where
  -- `x, err := m`, where what follows handles the error itself.
  pub attempt : Exec S A → Exec S (Reply A)
  attempt m w = caught (m w)

module _ {S A B : Type 0} where
  abbrev pub continue : Outcome A → (A → Exec S B) → Exec S B
  continue (ok a) f w = f a w
  continue (err e) f w = (err e, w)
  continue panic f w = (panic, w)

  infixl 5 ◌>>=◌ ◌>>◌
  -- `x, err := m; if err != nil { return err }`, then the rest. Opening this opens the actions above.
  unfoldable pub ◌>>=◌ : Exec S A → (A → Exec S B) → Exec S B
  unfolding pure raise crash or_crash ask write sample attempt
  ◌>>=◌ m f w = continue (m w).0 f (m w).1

  abbrev pub ◌>>◌ : Exec S A → Exec S B → Exec S B
  m >> k = m >>= λ _. k

-- `client.IgnoreNotFound(err)`: nil for a not-found error, and the error itself for any other.
unfoldable pub ignore_not_found : {S A : Type 0} → Error → A → Exec S A
unfolding pure raise
ignore_not_found e a = if e.not_found then pure a else raise e
