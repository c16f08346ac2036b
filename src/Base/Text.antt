-- ===== src/Base/Text.antt =====
-- `strings.Split` and `strings.Join` of the Go standard library, on a separator that is not empty.
pub mod Laws
use Prim.Native.Nat.{ℕ, zero, suc}
use Prim.Native.Char.{Char, code}
use Prim.Native.String.{String, ◌++◌}
use mathlib.Core.Bool.{Bool, true, false, ◌&&◌}
use mathlib.Core.List.{List, [], ◌∷◌}
use altershield_operator.Base.Tests.{eqb, if◌then◌else◌}

-- Whether the text begins with the given prefix.
unfoldable pub begins_with : String → String → Bool
begins_with s String.[] = true
begins_with String.[] (String.◌∷◌ c p) = false
begins_with (String.◌∷◌ d s) (String.◌∷◌ c p) = eqb (code d) (code c) && begins_with s p

-- The number of characters.
unfoldable pub size : String → ℕ
size String.[] = 0
size (String.◌∷◌ c s) = suc (size s)

abbrev pub push : Char → List String → List String
push c [] = String.◌∷◌ c "" ∷ []
push c (p ∷ ps) = String.◌∷◌ c p ∷ ps

-- The parts of a text; the number counts the characters of a separator still to be skipped.
unfoldable pub split_from : Char → String → ℕ → String → List String
unfolding begins_with size
split_from c sep skip String.[] = "" ∷ []
split_from c sep (suc k) (String.◌∷◌ d s) = split_from c sep k s
split_from c sep zero (String.◌∷◌ d s) =
    let found = "" ∷ split_from c sep (size sep) s in
    let other = push d (split_from c sep zero s) in
    if begins_with (String.◌∷◌ d s) (String.◌∷◌ c sep) then found else other

-- `strings.Split(s, sep)` for the separator `c ∷ sep`.
unfoldable pub split : Char → String → String → List String
unfolding split_from
split c sep s = split_from c sep zero s

-- `strings.Join(parts, sep)`
unfoldable pub join : String → List String → String
join sep [] = ""
join sep (p ∷ []) = p
join sep (p ∷ q ∷ ps) = p ++ (sep ++ join sep (q ∷ ps))
