-- ===== src/Exec/Issues.antt =====
-- What an action may issue, one rule for each way to build an action.
use mathlib.Core.Path.{subst}
use mathlib.Core.List.{append_assoc}
use altershield_operator.Base.{
  ◌≡◌, refl, ap, sym, ◌∙◌, Bool, true, false, Option, none, some, if◌then◌else◌, All, List, [], ◌∷◌,
  ◌++◌,
}
use altershield_operator.Calls.{Call}
use altershield_operator.Exec.{
  Error, Reply, done, failed, answer, Outcome, ok, err, panic, World, Exec, caught, pure, raise,
  crash, or_crash, ask, write, sample, attempt, ◌>>=◌, continue, ignore_not_found,
}

-- The second list of calls is the first with more before it, all of which satisfy `Q`.
abbrev pub Adds : (Call → Type 0) → List Call → List Call → Type 0
Adds Q before after = (added : List Call) × (after ≡ added ++ before) × All Q added

-- `m` issues only writes that satisfy `Q`, whether it returns, fails or panics.
pub record Issues {S A : Type 0} (Q : Call → Type 0) (m : Exec S A) : Type 0 where
  pub at : (w : World S) → Adds Q w.issued (m w).1.issued

All-append : (Q : Call → Type 0) (xs ys : List Call) → All Q xs → All Q ys → All Q (xs ++ ys)
All-append Q [] ys hx hy = hy
All-append Q (x ∷ xs) ys hx hy = (hx.0, All-append Q xs ys hx.1 hy)

All-weaken :
    {P Q : Call → Type 0} → ((c : Call) → P c → Q c) → (xs : List Call) → All P xs → All Q xs
All-weaken f [] h = tt
All-weaken f (x ∷ xs) h = (f x h.0, All-weaken f xs h.1)

Adds-none : {Q : Call → Type 0} (calls : List Call) → Adds Q calls calls
Adds-none calls = ([], refl, tt)

Adds-then : {Q : Call → Type 0} {a b c : List Call} → Adds Q a b → Adds Q b c → Adds Q a c
Adds-then {Q} {a = a} (xs, ex, hx) (ys, ey, hy) = (
  ys ++ xs,
  ey ∙ ap (λ (l : List Call). ys ++ l) ex ∙ sym (append_assoc ys xs a),
  All-append Q ys xs hy hx,
)

-- Every value that `m` returns satisfies `R`.
pub record Returns {S A : Type 0} (R : A → Type 0) (m : Exec S A) : Type 0 where
  pub at : (w : World S) (a : A) → (m w).0 ≡ ok a → R a

module _ {S A : Type 0} where
  caught_issued : (r : Outcome A × World S) → (caught r).1 ≡ r.1
  caught_issued (ok a, w) = refl
  caught_issued (err e, w) = refl
  caught_issued (panic, w) = refl

module _ {A : Type 0} where
  value_or : A → Outcome A → A
  value_or a (ok b) = b
  value_or a (err e) = a
  value_or a panic = a

module _ {A : Type 0} where
  answered : (r : Reply A) (a : A) → answer r ≡ ok a → r ≡ done a
  unfolding value_or
  answered (done b) a h = ap (λ o. done (value_or a o)) h
  answered (failed e) a h = absurd cc

module _ {S A : Type 0} where
  caught-answer :
      (r reply : Reply A) (v : World S) → (caught (answer r, v)).0 ≡ ok reply → r ≡ reply
  unfolding value_or
  caught-answer (done a) reply v h = ap (value_or reply) h
  caught-answer (failed e) reply v h = ap (value_or reply) h

module _ {S A : Type 0} {Q : Call → Type 0} where
  pub Issues-pure : (a : A) → Issues {S = S} Q (pure a)
  unfolding pure
  Issues-pure a = record { at = λ w. Adds-none w.issued }

  pub Issues-raise : (e : Error) → Issues {S = S} {A = A} Q (raise e)
  unfolding raise
  Issues-raise e = record { at = λ w. Adds-none w.issued }

  pub Issues-crash : Issues {S = S} {A = A} Q crash
  unfolding crash
  Issues-crash = record { at = λ w. Adds-none w.issued }

  pub Issues-or_crash : (o : Option A) → Issues {S = S} Q (or_crash o)
  unfolding or_crash
  Issues-or_crash none = record { at = λ w. Adds-none w.issued }
  Issues-or_crash (some a) = record { at = λ w. Adds-none w.issued }

  pub Issues-ask : (f : S → Reply A × S) → Issues Q (ask f)
  unfolding ask
  Issues-ask f = record { at = λ w. Adds-none w.issued }

  pub Issues-sample : (f : S → A × S) → Issues Q (sample f)
  unfolding sample
  Issues-sample f = record { at = λ w. Adds-none w.issued }

  pub Issues-write : (c : Call) (f : S → Reply A × S) → Q c → Issues Q (write c f)
  unfolding write
  Issues-write c f q = record { at = λ w. (c ∷ [], refl, (q, tt)) }

  pub Issues-if :
      (b : Bool) (m n : Exec S A)
      → (b ≡ true → Issues Q m)
      → (b ≡ false → Issues Q n)
      → Issues Q (if b then m else n)
  Issues-if true m n hm hn = hm refl
  Issues-if false m n hm hn = hn refl

  pub Issues-ignore_not_found : (e : Error) (a : A) → Issues {S = S} Q (ignore_not_found e a)
  unfolding ignore_not_found
  Issues-ignore_not_found e a = Issues-if e.not_found _ _ (λ _. Issues-pure a) (λ _. Issues-raise e)

  pub Issues-weaken :
      {P : Call → Type 0} → ((c : Call) → P c → Q c) → (m : Exec S A) → Issues P m → Issues Q m
  Issues-weaken f m h = record {
    at = λ w. let (added, e, p) = h.at w in (added, e, All-weaken f added p);
  }

  pub Issues-attempt : (m : Exec S A) → Issues Q m → Issues Q (attempt m)
  unfolding attempt
  Issues-attempt m h = record { at = λ w. rw caught_issued (h.at w) }

module _ {S A B : Type 0} {Q : Call → Type 0} where
  Issues-continue :
      (r : Outcome A) (f : A → Exec S B)
      → ((a : A) → r ≡ ok a → Issues Q (f a))
      → Issues Q (continue r f)
  Issues-continue (ok a) f h = h a refl
  Issues-continue (err e) f h = record { at = λ w. Adds-none w.issued }
  Issues-continue panic f h = record { at = λ w. Adds-none w.issued }

  pub Issues-bind :
      (m : Exec S A) (f : A → Exec S B)
      → Issues Q m
      → ((a : A) → Issues Q (f a))
      → Issues Q (m >>= f)
  unfolding ◌>>=◌
  Issues-bind m f hm hf = record {
    at = λ w. Adds-then (hm.at w) ((Issues-continue (m w).0 f (λ a _. hf a)).at (m w).1);
  }

  -- The rest of the block may use what is known of the value.
  pub Issues-bind_knowing :
      {R : A → Type 0} (m : Exec S A) (f : A → Exec S B)
      → Issues Q m
      → Returns R m
      → ((a : A) → R a → Issues Q (f a))
      → Issues Q (m >>= f)
  unfolding ◌>>=◌
  Issues-bind_knowing m f hm hr hf = record {
    at = λ w.
        Adds-then (hm.at w) ((Issues-continue (m w).0 f (λ a e. hf a (hr.at w a e))).at (m w).1);
  }

module _ {S A B : Type 0} {R : B → Type 0} where
  Returns-continue :
      (r : Outcome A) (f : A → Exec S B)
      → ((a : A) → r ≡ ok a → Returns R (f a))
      → Returns R (continue r f)
  Returns-continue (ok a) f h = h a refl
  Returns-continue (err e) f h = record { at = λ w b p. cc }
  Returns-continue panic f h = record { at = λ w b p. cc }

  pub Returns-bind :
      (m : Exec S A) (f : A → Exec S B) → ((a : A) → Returns R (f a)) → Returns R (m >>= f)
  unfolding ◌>>=◌
  Returns-bind m f h = record { at = λ w. (Returns-continue (m w).0 f (λ a _. h a)).at (m w).1 }

  pub Returns-bind_knowing :
      {P : A → Type 0} (m : Exec S A) (f : A → Exec S B)
      → Returns P m
      → ((a : A) → P a → Returns R (f a))
      → Returns R (m >>= f)
  unfolding ◌>>=◌
  Returns-bind_knowing m f p h = record {
    at = λ w. (Returns-continue (m w).0 f (λ a e. h a (p.at w a e))).at (m w).1;
  }

module _ {S A : Type 0} {R : A → Type 0} where
  pub Returns-pure : (a : A) → R a → Returns {S = S} R (pure a)
  unfolding pure value_or
  Returns-pure a h = record { at = λ w b p. subst R (ap (value_or a) p) h }

  pub Returns-ask :
      (f : S → Reply A × S) → ((s : S) (a : A) → (f s).0 ≡ done a → R a) → Returns R (ask f)
  unfolding ask
  Returns-ask f h = record { at = λ w a p. h w.server a (answered (f w.server).0 a p) }

  pub Returns-raise : (e : Error) → Returns {S = S} R (raise e)
  unfolding raise
  Returns-raise e = record { at = λ w b p. cc }

  pub Returns-crash : Returns {S = S} R crash
  unfolding crash
  Returns-crash = record { at = λ w b p. cc }

  pub Returns-if :
      (b : Bool) (m n : Exec S A) → Returns R m → Returns R n → Returns R (if b then m else n)
  Returns-if true m n hm hn = hm
  Returns-if false m n hm hn = hn

  pub Returns-split :
      (b : Bool) (m n : Exec S A)
      → (b ≡ true → Returns R m)
      → (b ≡ false → Returns R n)
      → Returns R (if b then m else n)
  Returns-split true m n hm hn = hm refl
  Returns-split false m n hm hn = hn refl

  pub Returns-or_crash :
      (o : Option A) → ((a : A) → o ≡ some a → R a) → Returns {S = S} R (or_crash o)
  unfolding or_crash value_or
  Returns-or_crash none h = record { at = λ w b p. cc }
  Returns-or_crash (some a) h = record { at = λ w b p. subst R (ap (value_or a) p) (h a refl) }

module _ {S A : Type 0} where
  -- What is returned of a read whose error is handled is an answer to it.
  pub Returns-attempt-ask :
      (f : S → Reply A × S) → Returns (λ reply. (s : S) × ((f s).0 ≡ reply)) (attempt (ask f))
  unfolding attempt ask
  Returns-attempt-ask f = record {
    at = λ w reply p. (w.server, caught-answer (f w.server).0 reply _ p);
  }

module _ {S A : Type 0} where
  pub Returns-attempt-write :
      (c : Call) (f : S → Reply A × S)
      → Returns (λ reply. (s : S) × ((f s).0 ≡ reply)) (attempt (write c f))
  unfolding attempt write
  Returns-attempt-write c f = record {
    at = λ w reply p. (w.server, caught-answer (f w.server).0 reply _ p);
  }

pub ruleset issues_rules = (
  Issues-pure, Issues-raise, Issues-crash, Issues-or_crash, Issues-ask, Issues-sample, Issues-write,
  Issues-ignore_not_found, Issues-if, Issues-attempt, Issues-bind,
)
