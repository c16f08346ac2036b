-- ===== src/Exec/Leads.antt =====
-- Actions that end with a value, from the states of the server where a condition holds: one rule for each
-- way to build an action.
use altershield_operator.Base.{
  ◌≡◌, refl, Bool, true, false, Option, some, if◌then◌else◌, ◌⊎◌, inl, inr,
}
use altershield_operator.Calls.{Call}
use altershield_operator.Exec.{
  Error, Reply, done, failed, Outcome, ok, err, panic, World, Exec, pure, or_crash, ask, write,
  sample, attempt, ◌>>=◌, caught,
}

-- A call of the library succeeds wherever `P` holds, and its answer and the state after it satisfy `Q`.
abbrev pub Answers : {S A : Type 0} → (S → Type 0) → (S → Reply A × S) → (A → S → Type 0) → Type 0
Answers P f Q = (s : _) → P s → (a : _) × ((f s).0 ≡ done a) × Q a (f s).1

caught-ok :
    {S A : Type 0} (r : Outcome A × World S) (a : A) → r.0 ≡ ok a → caught r ≡ (ok (done a), r.1)
caught-ok (ok b, w) a e = cc
caught-ok (err x, w) a e = absurd cc
caught-ok (panic, w) a e = absurd cc

-- Wherever `P` holds, `m` ends with a value, and the value and the state after it satisfy `Q`.
pub record Leads {S A : Type 0} (P : S → Type 0) (m : Exec S A) (Q : A → S → Type 0) : Type 0 where
  pub at : (w : World S) → P w.server → (a : A) × ((m w).0 ≡ ok a) × Q a (m w).1.server

module _ {S A : Type 0} {P : S → Type 0} {Q : A → S → Type 0} where
  pub Leads-pure : (a : A) → ((s : S) → P s → Q a s) → Leads P (pure a) Q
  unfolding pure
  Leads-pure a h = record { at = λ w p. (a, refl, h w.server p) }

  pub Leads-sample : (f : S → A × S) → ((s : S) → P s → Q (f s).0 (f s).1) → Leads P (sample f) Q
  unfolding sample
  Leads-sample f h = record { at = λ w p. ((f w.server).0, refl, h w.server p) }

  pub Leads-ask : (f : S → Reply A × S) → Answers P f Q → Leads P (ask f) Q
  unfolding ask
  Leads-ask f h = record { at = λ w p. let (a, e, q) = h w.server p in (a, rw e refl, q) }

  pub Leads-write : (c : Call) (f : S → Reply A × S) → Answers P f Q → Leads P (write c f) Q
  unfolding write
  Leads-write c f h = record { at = λ w p. let (a, e, q) = h w.server p in (a, rw e refl, q) }

  pub Leads-if :
      (b : Bool) (m n : Exec S A)
      → (b ≡ true → Leads P m Q)
      → (b ≡ false → Leads P n Q)
      → Leads P (if b then m else n) Q
  Leads-if true m n hm hn = hm refl
  Leads-if false m n hm hn = hn refl

  pub Leads-or_crash :
      (o : Option A) (a : A) → o ≡ some a → ((s : S) → P s → Q a s) → Leads P (or_crash o) Q
  unfolding or_crash
  Leads-or_crash o a e h = record { at = λ w p. (a, rw e refl, rw e (h w.server p)) }

module _ {S A : Type 0} {P : S → Type 0} {Q : A → S → Type 0} where
  pub Leads-weaken :
      {R : A → S → Type 0} (m : Exec S A)
      → Leads P m Q
      → ((a : A) (s : S) → Q a s → R a s)
      → Leads P m R
  Leads-weaken m h f = record { at = λ w p. let (a, e, q) = h.at w p in (a, e, f a _ q) }

  pub Leads-bind :
      {B : Type 0} {R : B → S → Type 0} (m : Exec S A) (f : A → Exec S B)
      → Leads P m Q
      → ((a : A) → Leads (Q a) (f a) R)
      → Leads P (m >>= f) R
  unfolding ◌>>=◌
  Leads-bind {R} m f hm hf = record {
    at = λ w p. let (a, e, q) = hm.at w p in rw e ((hf a).at (m w).1 q);
  }

  -- An error of `m` would be handled, but there is none.
  pub Leads-attempt :
      {B : Type 0} {R : B → S → Type 0} (m : Exec S A) (f : Reply A → Exec S B)
      → Leads P m Q
      → ((a : A) → Leads (Q a) (f (done a)) R)
      → Leads P (attempt m >>= f) R
  unfolding ◌>>=◌ attempt
  Leads-attempt m f hm hf = record {
    at = λ w p. let (a, e, q) = hm.at w p in rw (caught-ok (m w) a e) ((hf a).at (m w).1 q);
  }

  pub Leads-caught :
      (m : Exec S A)
      → Leads P m Q
      → Leads P (attempt m) (λ reply s. (a : A) × (reply ≡ done a) × Q a s)
  unfolding attempt
  Leads-caught m h = record {
    at = λ w p.
        let (a, e, q) = h.at w p in
        (done a, rw (caught-ok (m w) a e) refl, (a, refl, rw (caught-ok (m w) a e) q));
  }

module _ {S A X : Type 0} {P : X → S → Type 0} {Q : A → S → Type 0} where
  pub Leads-some : (m : Exec S A) → ((x : X) → Leads (P x) m Q) → Leads (λ s. (x : X) × P x s) m Q
  Leads-some m h = record { at = λ w p. (h p.0).at w p.1 }

module _ {S A X : Type 0} {P : S → Type 0} {Q : A → S → Type 0} where
  -- A value that is known stands for the one that is there.
  pub Leads-known :
      (f : X → Exec S A) (x y : X) → Leads P (f y) Q → Leads (λ s. (x ≡ y) × P s) (f x) Q
  Leads-known f x y h = record { at = λ w p. rw p.0 (h.at w p.1) }

module _ {S A X : Type 0} {T : X → Type 0} {P : X → S → Type 0} {Q : A → S → Type 0} where
  pub Leads-has :
      (m : Exec S A) → ((x : X) → T x → Leads (P x) m Q) → Leads (λ s. (x : X) × T x × P x s) m Q
  Leads-has m h = record { at = λ w p. (h p.0 p.1).at w p.2 }

module _ {S A B : Type 0} {P : S → Type 0} {R : B → S → Type 0} where
  -- A read whose failure is handled.
  pub Leads-attempt_ask :
      {Q : A → S → Type 0} {E : Error → S → Type 0} (f : S → Reply A × S) (g : Reply A → Exec S B)
      → ((s : S)
          → P s
          → ((a : A) × ((f s).0 ≡ done a) × Q a (f s).1)
            ⊎ ((e : Error) × ((f s).0 ≡ failed e) × E e (f s).1))
      → ((a : A) → Leads (Q a) (g (done a)) R)
      → ((e : Error) → Leads (E e) (g (failed e)) R)
      → Leads P (attempt (ask f) >>= g) R
  unfolding attempt ask ◌>>=◌
  Leads-attempt_ask f g h found missed = record {
    at = λ w p. elim (h w.server p) [
      | inl (a, e, q) ↦ rw e ((found a).at (record w { server = (f w.server).1 }) q)
      | inr (x, e, q) ↦ rw e ((missed x).at (record w { server = (f w.server).1 }) q)
    ];
  }
