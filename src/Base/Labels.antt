-- ===== src/Base/Labels.antt =====
-- Go's `map[string]string` as the code uses it for labels: a nil map can be read and deleted from,
-- and a write to it panics.
use Prim.Native.String.{String}
use mathlib.Core.Path.{◌≡◌, refl}
use mathlib.Core.Bool.{Bool, true, false}
use mathlib.Core.Option.{Option, none, some}
use mathlib.Core.List.{List, [], ◌∷◌}
use native.Mathlib.Omega.{arith}
use text.Mathlib.Text.{◌==◌}
use text.Mathlib.TextEquality.{eq_iff}
use altershield_operator.Base.Tests.{if◌then◌else◌}

pub data Labels : Type 0 where
  nil : Labels
  made : List (String × String) → Labels

-- Entries of a map, the first of a key being the map's.
unfoldable pub lookup {ℓ} : {V : Type ℓ} → String → List (String × V) → Option V
lookup key [] = none
lookup key ((name, value) ∷ rest) = if name == key then some value else lookup key rest

unfoldable pub erase {ℓ} : {V : Type ℓ} → String → List (String × V) → List (String × V)
erase key [] = []
erase key ((name, value) ∷ rest) =
    let others = erase key rest in if name == key then others else (name, value) ∷ others

unfoldable pub insert {ℓ} : {V : Type ℓ} → String → V → List (String × V) → List (String × V)
insert key new [] = (key, new) ∷ []
insert key new ((name, value) ∷ rest) =
    if name == key then (key, new) ∷ rest else (name, value) ∷ insert key new rest

pub lookup-erase {ℓ} :
    {V : Type ℓ} (key other : String) (entries : List (String × V))
    → lookup other (erase key entries) ≡ (if key == other then none else lookup other entries)
unfolding lookup erase
lookup-erase key other [] = ground arith
lookup-erase key other ((name, value) ∷ rest) =
    ground
      (arith, eq_iff key other, eq_iff name key, eq_iff name other, lookup-erase key other rest)

pub lookup-insert {ℓ} :
    {V : Type ℓ} (key other : String) (new : V) (entries : List (String × V))
    → lookup other (insert key new entries)
      ≡ (if key == other then some new else lookup other entries)
unfolding lookup insert
lookup-insert key other new [] = refl
lookup-insert key other new ((name, value) ∷ rest) =
    ground (
      arith,
      eq_iff name other,
      eq_iff key other,
      eq_iff name key,
      lookup-insert key other new rest,
    )

-- The entries of a map.
abbrev pub entries_of : Labels → List (String × String)
entries_of nil = []
entries_of (made entries) = entries

-- `v, ok := labels[k]`
unfoldable pub get_label? : String → Labels → Option String
unfolding lookup
get_label? k nil = none
get_label? k (made m) = lookup k m

-- `_, ok := labels[k]`
unfoldable pub has_label : String → Labels → Bool
unfolding get_label?
has_label k l = elim (get_label? k l) [ none ↦ false | some _ ↦ true ]

-- `labels[k]`
unfoldable pub label : String → Labels → String
unfolding get_label?
label k l = elim (get_label? k l) [ none ↦ "" | some v ↦ v ]

-- `labels[k] = v`, where `none` is the panic of a write to a nil map.
unfoldable pub set_label : String → String → Labels → Option Labels
unfolding insert
set_label k v nil = none
set_label k v (made m) = some (made (insert k v m))

-- `delete(labels, k)`
unfoldable pub delete_label : String → Labels → Labels
unfolding erase
delete_label k nil = nil
delete_label k (made m) = made (erase k m)

-- A label that was written is read back, and no other label changes.
pub get_label?-set_label :
    (k v j : String) (l : Labels) {m : Labels}
    → set_label k v l ≡ some m
    → get_label? j m ≡ (if k == j then some v else get_label? j l)
unfolding set_label get_label?
get_label?-set_label k v j nil h = cc
get_label?-set_label k v j (made e) {m = nil} h = ground arith
get_label?-set_label k v j (made e) {m = made f} h = ground (arith, lookup-insert k j v e)

-- A deleted label is absent, and no other label changes.
pub get_label?-delete_label :
    (k j : String) (l : Labels)
    → get_label? j (delete_label k l) ≡ (if k == j then none else get_label? j l)
unfolding delete_label get_label?
get_label?-delete_label k j nil = ground arith
get_label?-delete_label k j (made e) = lookup-erase k j e
