-- ===== src/Base/Lists.antt =====
-- Lists measured by native numbers, and predicates over lists by recursion.
use Prim.Native.Nat.{ℕ, zero, suc, ◌+◌, ◌≤◌}
use mathlib.Core.Path.{◌≡◌}
use mathlib.Core.Bool.{Bool, true, false}
use mathlib.Core.Logic.{◌⊎◌, inl, inr}
use mathlib.Core.List.{List, [], ◌∷◌, ◌++◌}
use native.Mathlib.Omega.{arith}
use altershield_operator.Base.Tests.{if◌then◌else◌}

module _ {ℓ} {A : Type ℓ} where
  abbrev pub length : List A → ℕ
  length [] = 0
  length (x ∷ xs) = suc (length xs)

  abbrev pub take : ℕ → List A → List A
  take zero xs = []
  take (suc n) [] = []
  take (suc n) (x ∷ xs) = x ∷ take n xs

  -- `for _, x := range xs { if keep(x) { result = append(result, x) } }`
  abbrev pub keep : (A → Bool) → List A → List A
  keep p [] = []
  keep p (x ∷ xs) = if p x then x ∷ keep p xs else keep p xs

  abbrev pub is_nil : List A → Bool
  is_nil [] = true
  is_nil (x ∷ xs) = false

  pub length-append : (xs ys : List A) → length (xs ++ ys) ≡ length xs + length ys
  length-append [] ys = omega arith
  length-append (x ∷ xs) ys = omega (arith, length-append xs ys)

  pub length-take-le : (n : ℕ) (xs : List A) → length (take n xs) ≤ n
  length-take-le zero xs = omega arith
  length-take-le (suc n) [] = omega arith
  length-take-le (suc n) (x ∷ xs) = omega (arith, length-take-le n xs)

module _ {ℓ} {A : Type ℓ} where
  -- Every element of the list has the property.
  abbrev pub All : (A → Type 0) → List A → Type 0
  All P [] = Unit
  All P (x ∷ xs) = P x × All P xs

  -- Some element of the list has the property, at a position that the proof shows.
  abbrev pub Any : (A → Type 0) → List A → Type 0
  Any P [] = ⊥
  Any P (x ∷ xs) = P x ⊎ Any P xs

  pub All-every : (P : A → Type 0) → ((x : A) → P x) → (xs : List A) → All P xs
  All-every P f [] = tt
  All-every P f (x ∷ xs) = (f x, All-every P f xs)

  pub Any-append : (P : A → Type 0) (xs : List A) → Any P (xs ++ []) → Any P xs
  Any-append P [] h = h
  Any-append P (x ∷ xs) (inl p) = inl p
  Any-append P (x ∷ xs) (inr h) = inr (Any-append P xs h)

  -- What some element has, and what all have, gives what the two together give.
  pub Any-All :
      (P Q : A → Type 0) {R : Type 0} (xs : List A)
      → Any P xs
      → All Q xs
      → ((x : A) → P x → Q x → R)
      → R
  Any-All P Q [] h all f = absurd h
  Any-All P Q (x ∷ xs) (inl p) all f = f x p all.0
  Any-All P Q (x ∷ xs) (inr h) all f = Any-All P Q xs h all.1 f
