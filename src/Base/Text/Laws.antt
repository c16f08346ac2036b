-- ===== src/Base/Text/Laws.antt =====
-- What joining does to split parts.
use Prim.Native.Nat.{ℕ, zero, suc}
use Prim.Native.Char.{Char, code}
use Prim.Native.String.{String, ◌++◌}
use mathlib.Core.Path.{◌≡◌, refl, ap, ◌∙◌}
use mathlib.Core.Logic.{◌≢◌, inl, inr}
use mathlib.Core.Bool.{Bool, true, false}
use mathlib.Core.List.{List, [], ◌∷◌}
use native.Mathlib.Omega.{arith}
use text.Mathlib.TextEquality.{Char-path}
use text.Mathlib.TextLemmas.{nil-append, cons-append}
use altershield_operator.Base.Tests.{eqb, if◌then◌else◌, Bool-cases}
use altershield_operator.Base.Text.{begins_with, size, push, split_from, split, join}

abbrev drop : ℕ → String → String
drop k String.[] = ""
drop zero (String.◌∷◌ c s) = String.◌∷◌ c s
drop (suc k) (String.◌∷◌ c s) = drop k s

drop_zero : (s : String) → drop 0 s ≡ s
drop_zero String.[] = refl
drop_zero (String.◌∷◌ c s) = refl

drop_nil : (k : ℕ) → "" ≡ drop k ""
drop_nil zero = refl
drop_nil (suc k) = refl

begins_with-drop : (s p : String) → begins_with s p ≡ true → p ++ drop (size p) s ≡ s
unfolding begins_with size
begins_with-drop s String.[] h = nil-append _ ∙ drop_zero s
begins_with-drop String.[] (String.◌∷◌ c p) h = cc
begins_with-drop (String.◌∷◌ d s) (String.◌∷◌ c p) h =
    cons-append c p _ ∙ rw (begins_with-drop s p (ground arith), Char-path c d (ground arith)) refl

push-ne-nil : (d : Char) (ps : List String) → push d ps ≢ []
push-ne-nil d [] = ground arith
push-ne-nil d (p ∷ ps) = ground arith

split_from-ne-nil : (c : Char) (sep : String) (k : ℕ) (s : String) → split_from c sep k s ≢ []
unfolding split_from
split_from-ne-nil c sep k String.[] = ground arith
split_from-ne-nil c sep zero (String.◌∷◌ d s) =
    elim (Bool-cases (begins_with (String.◌∷◌ d s) (String.◌∷◌ c sep))) [
      | inl e ↦ rw e (ground arith)
      | inr e ↦ rw e (push-ne-nil d _)
    ]
split_from-ne-nil c sep (suc k) (String.◌∷◌ d s) = split_from-ne-nil c sep k s

join-push :
    (sep : String) (d : Char) (ps : List String) → join sep (push d ps) ≡ String.◌∷◌ d (join sep ps)
unfolding join
join-push sep d [] = refl
join-push sep d (p ∷ []) = refl
join-push sep d (p ∷ q ∷ ps) = cons-append d p _

join-nil_cons :
    (sep : String) (ps : List String) → ps ≢ [] → join sep ("" ∷ ps) ≡ sep ++ join sep ps
unfolding join
join-nil_cons sep [] h = absurd (h refl)
join-nil_cons sep (p ∷ ps) h = nil-append _

join-split_from :
    (c : Char) (sep : String) (k : ℕ) (s : String)
    → join (String.◌∷◌ c sep) (split_from c sep k s) ≡ drop k s
unfolding split_from join
join-split_from c sep k String.[] = drop_nil k
join-split_from c sep (suc k) (String.◌∷◌ d s) = join-split_from c sep k s
join-split_from c sep zero (String.◌∷◌ d s) =
    elim (Bool-cases (begins_with (String.◌∷◌ d s) (String.◌∷◌ c sep))) [
      | inl e ↦ rw e (
          join-nil_cons (String.◌∷◌ c sep) _ (split_from-ne-nil c sep (size sep) s)
          ∙ ap (λ t. String.◌∷◌ c sep ++ t) (join-split_from c sep (size sep) s)
          ∙ begins_with-drop (String.◌∷◌ d s) (String.◌∷◌ c sep) e)
      | inr e ↦ rw e (
          join-push (String.◌∷◌ c sep) d _
          ∙ ap (String.◌∷◌ d) (join-split_from c sep zero s ∙ drop_zero s))
    ]

-- Joining the parts of a text by the separator that split it gives the text back.
pub join-split : (c : Char) (sep s : String) → join (String.◌∷◌ c sep) (split c sep s) ≡ s
unfolding split
join-split c sep s = join-split_from c sep zero s ∙ drop_zero s

-- No character of the text is the given one.
abbrev pub lacks : Char → String → Bool
lacks c String.[] = true
lacks c (String.◌∷◌ d s) = if eqb (code d) (code c) then false else lacks c s

split_from-skip :
    (c : Char) (sep p s : String) → split_from c sep (size p) (p ++ s) ≡ split_from c sep zero s
unfolding split_from size
split_from-skip c sep String.[] s = rw nil-append
split_from-skip c sep (String.◌∷◌ d p) s = rw cons-append (split_from-skip c sep p s)

begins_with-append : (p s : String) → begins_with (p ++ s) p ≡ true
unfolding begins_with
begins_with-append String.[] s = refl
begins_with-append (String.◌∷◌ c p) s = rw (cons-append, begins_with-append p s) (ground arith)

-- A text that lacks the separator's first character, put before the separator, is the first part.
pub split-append :
    (c : Char) (sep p s : String)
    → lacks c p ≡ true
    → split c sep (p ++ (String.◌∷◌ c sep ++ s)) ≡ p ∷ split c sep s
unfolding split split_from
split-append c sep String.[] s h =
    rw (nil-append, cons-append)
      (ground (arith, begins_with-append sep s, split_from-skip c sep sep s))
split-append c sep (String.◌∷◌ d p) s h = rw cons-append (ground (arith, split-append c sep p s))
