-- ===== src/Utils/Pods/Equal.antt =====
-- What `IsPodSummarySliceEqual` decides on lists that name no pod twice.
use mathlib.Core.Path.{subst}
use altershield_operator.Base.{
  String, ◌≡◌, refl, true, List, [], ◌∷◌, Option, none, some, eq_iff, arith, if◌then◌else◌, length,
  ◌∙◌, ap, sym, Bool-cases, inl, inr, eq_refl, ◌==◌, ◌↔◌,
}
use altershield_operator.Base.Labels.{lookup, insert, lookup-insert}
use altershield_operator.Types.{PodSummary}
use altershield_operator.Utils.Pods.{
  MapOf, appeared, same_summary, by_name, holds, entries_in, is_pod_summary_slice_equal,
}
use altershield_operator.Utils.Pods.Distinct.{first_of_pod, AreDistinct, not_appeared}

same_summary-eq : (a b : PodSummary) → same_summary a b ≡ true → a ≡ b
same_summary-eq a b h = ground (
  arith,
  eq_iff a.app b.app,
  eq_iff a.hostname b.hostname,
  eq_iff a.workspace b.workspace,
  eq_iff a.pod b.pod,
  eq_iff a.ip b.ip,
  eq_iff a.namespace b.namespace,
  eq_iff a.verdict b.verdict,
  eq_iff a.message b.message,
)

holds-eq : (o : Option PodSummary) (v : PodSummary) → holds o v ≡ true → o ≡ some v
holds-eq none v h = cc
holds-eq (some w) v h = ap some (same_summary-eq w v h)

lookup-by_name :
    (k : String) (m : MapOf PodSummary) (ps : List PodSummary)
    → AreDistinct ps
    → lookup k (by_name m ps) ≡ (if appeared k ps then first_of_pod k ps else lookup k m)
unfolding by_name appeared first_of_pod
lookup-by_name k m [] d = refl
lookup-by_name k m (p ∷ ps) d =
    lookup-by_name k (insert p.pod p m) ps d.1
    ∙ ground (arith, lookup-insert p.pod k p m, eq_iff k p.pod, eq_iff p.pod k)

first_of_pod_of_map :
    (k : String) (ps : List PodSummary)
    → AreDistinct ps
    → lookup k (by_name [] ps) ≡ first_of_pod k ps
unfolding lookup
first_of_pod_of_map k ps d = lookup-by_name k [] ps d ∙ ground (arith, not_appeared k ps)

entries_in-lookup :
    (a b : MapOf PodSummary) (k : String) (v : PodSummary)
    → entries_in a b ≡ true
    → lookup k a ≡ some v
    → lookup k b ≡ some v
unfolding entries_in lookup
entries_in-lookup [] b k v h e = cc
entries_in-lookup ((j, u) ∷ a) b k v h e =
    ground (arith, entries_in-lookup a b k v, holds-eq (lookup j b) u, eq_iff j k)

is_pod_summary_slice_equal_sound :
    (a b : List PodSummary)
    → AreDistinct a
    → AreDistinct b
    → is_pod_summary_slice_equal a b ≡ true
    → (length a ≡ length b)
      × ((k : String) (v : PodSummary) → first_of_pod k a ≡ some v → first_of_pod k b ≡ some v)
unfolding is_pod_summary_slice_equal first_of_pod
is_pod_summary_slice_equal_sound [] b da db h = (ground arith, λ k v e. cc)
is_pod_summary_slice_equal_sound (u ∷ us) b da db h = (
  ground arith,
  λ k v e.
      sym (first_of_pod_of_map k b db)
      ∙ entries_in-lookup (by_name [] (u ∷ us)) (by_name [] b) k v (ground arith)
          (first_of_pod_of_map k (u ∷ us) da ∙ e),
)

-- No key of the entries appears twice.
abbrev AreKeyed : MapOf PodSummary → Type 0
AreKeyed [] = Unit
AreKeyed ((k, v) ∷ m) = (lookup k m ≡ none) × AreKeyed m

insert-AreKeyed :
    (k : String) (v : PodSummary) (m : MapOf PodSummary) → AreKeyed m → AreKeyed (insert k v m)
unfolding insert lookup
insert-AreKeyed k v [] h = (refl, tt)
insert-AreKeyed k v ((j, u) ∷ m) h = elim (Bool-cases (j == k)) [
  | inl e ↦ rw e (subst (λ x. lookup x m ≡ none) ((eq_iff j k).0 e) h.0, h.1)
  | inr e ↦
      rw e
        (lookup-insert k j v m ∙ ground (arith, eq_iff j k, eq_iff k j), insert-AreKeyed k v m h.1)
]

by_name-AreKeyed :
    (m : MapOf PodSummary) (ps : List PodSummary) → AreKeyed m → AreKeyed (by_name m ps)
unfolding by_name
by_name-AreKeyed m [] h = h
by_name-AreKeyed m (p ∷ ps) h = by_name-AreKeyed (insert p.pod p m) ps (insert-AreKeyed p.pod p m h)

same_summary_refl : (a : PodSummary) → same_summary a a ≡ true
same_summary_refl a =
    rw
      (
        eq_refl a.app,
        eq_refl a.hostname,
        eq_refl a.workspace,
        eq_refl a.pod,
        eq_refl a.ip,
        eq_refl a.namespace,
        eq_refl a.verdict,
        eq_refl a.message,
      )
      refl

entries_in_complete :
    (a b : MapOf PodSummary)
    → AreKeyed a
    → ((k : String) (v : PodSummary) → lookup k a ≡ some v → lookup k b ≡ some v)
    → entries_in a b ≡ true
unfolding entries_in lookup
entries_in_complete [] b h f = refl
entries_in_complete ((k, v) ∷ a) b h f =
    rw (f k v (rw (eq_refl k) refl), same_summary_refl v)
      (entries_in_complete a b h.1 (λ j u e. f j u (ground (arith, eq_iff k j))))

is_pod_summary_slice_equal_complete :
    (a b : List PodSummary)
    → AreDistinct a
    → AreDistinct b
    → (length a ≡ length b)
      × ((k : String) (v : PodSummary) → first_of_pod k a ≡ some v → first_of_pod k b ≡ some v)
    → is_pod_summary_slice_equal a b ≡ true
unfolding is_pod_summary_slice_equal
is_pod_summary_slice_equal_complete a b da db (e, f) =
    let entries : entries_in (by_name [] a) (by_name [] b) ≡ true =
      entries_in_complete (by_name [] a) (by_name [] b) (by_name-AreKeyed [] a tt)
        (λ k v g. first_of_pod_of_map k b db ∙ f k v (sym (first_of_pod_of_map k a da) ∙ g)) in
    ground arith

-- On two lists that name no pod twice, the function says that they are equal exactly where they have one
-- length and each pod of the first has the same summary in the second, whatever their order.
pub is_pod_summary_slice_equal_lem :
    (a b : List PodSummary)
    → AreDistinct a
    → AreDistinct b
    → (is_pod_summary_slice_equal a b ≡ true)
      ↔ (length a ≡ length b)
        × ((k : String) (v : PodSummary) → first_of_pod k a ≡ some v → first_of_pod k b ≡ some v)
is_pod_summary_slice_equal_lem a b da db =
    (is_pod_summary_slice_equal_sound a b da db, is_pod_summary_slice_equal_complete a b da db)
