-- ===== src/Utils/Pods/View.antt =====
-- The checked pods of a workload as what they say of each pod, whatever their order.
use mathlib.Core.Quot
use mathlib.Core.Quot.{Quot}
use mathlib.Core.HLevel.{hedberg}
use mathlib.Core.Path.{subst}
use altershield_operator.Base.{
  suc, String, ◌≡◌, ◌≤◌, refl, sym, ap, ◌∙◌, true, false, not, List, [], ◌∷◌, Option, none, some,
  ◌==◌, eq_iff, eq_refl, arith, if◌then◌else◌, length, keep, ◌↔◌, Bool-cases, inl, inr,
}
use altershield_operator.Types.{PodSummary}
use altershield_operator.Utils.Pods.{appeared, is_pod_summary_slice_equal}
use altershield_operator.Utils.Pods.Distinct.{first_of_pod, AreDistinct, not_appeared}
use altershield_operator.Utils.Pods.Equal.{is_pod_summary_slice_equal_lem}

-- The summaries of the other pods.
abbrev without : String → List PodSummary → List PodSummary
without k us = keep (λ u. not (k == u.pod)) us

first_of_pod-without :
    (j k : String) (us : List PodSummary)
    → first_of_pod j (without k us) ≡ (if k == j then none else first_of_pod j us)
unfolding first_of_pod
first_of_pod-without j k [] = ground arith
first_of_pod-without j k (u ∷ us) =
    ground (arith, first_of_pod-without j k us, eq_iff k u.pod, eq_iff j u.pod, eq_iff k j)

appeared-without :
    (j k : String) (us : List PodSummary)
    → appeared j us ≡ false
    → appeared j (without k us) ≡ false
unfolding appeared
appeared-without j k [] h = refl
appeared-without j k (u ∷ us) h = ground (arith, appeared-without j k us)

without-AreDistinct :
    (k : String) (us : List PodSummary) → AreDistinct us → AreDistinct (without k us)
without-AreDistinct k [] d = tt
without-AreDistinct k (u ∷ us) d = elim (Bool-cases (k == u.pod)) [
  | inl e ↦ rw e (without-AreDistinct k us d.1)
  | inr e ↦ rw e (appeared-without u.pod k us d.0, without-AreDistinct k us d.1)
]

without_absent : (k : String) (us : List PodSummary) → appeared k us ≡ false → without k us ≡ us
unfolding appeared
without_absent k [] h = refl
without_absent k (u ∷ us) h = ground (arith, without_absent k us)

length-without :
    (k : String) (us : List PodSummary) (v : PodSummary)
    → AreDistinct us
    → first_of_pod k us ≡ some v
    → length us ≡ suc (length (without k us))
unfolding first_of_pod
length-without k [] v d h = absurd cc
length-without k (u ∷ us) v d h = elim (Bool-cases (k == u.pod)) [
  | inl e ↦
      rw
        (
          e,
          without_absent k us (subst (λ x. appeared x us ≡ false) (sym ((eq_iff k u.pod).0 e)) d.0),
        )
        refl
  | inr e ↦ rw e (ap suc (length-without k us v d.1 (ground (arith, h))))
]

-- Each summary that `a` has first for its pod, `b` has first for it.
abbrev pub Within : List PodSummary → List PodSummary → Type 0
Within a b = (k : String) (v : PodSummary) → first_of_pod k a ≡ some v → first_of_pod k b ≡ some v

Within-without :
    (u : PodSummary) (us b : List PodSummary)
    → appeared u.pod us ≡ false
    → Within (u ∷ us) b
    → Within us (without u.pod b)
unfolding first_of_pod
Within-without u us b d h k v e =
    first_of_pod-without k u.pod b
    ∙ ground (arith, not_appeared u.pod us, h k v, eq_iff k u.pod, eq_iff u.pod k)

first_of_head : (u : PodSummary) (us : List PodSummary) → first_of_pod u.pod (u ∷ us) ≡ some u
unfolding first_of_pod
first_of_head u us = rw (eq_refl u.pod) refl

Within-le :
    (a b : List PodSummary) → AreDistinct a → AreDistinct b → Within a b → length a ≤ length b
Within-le [] b da db h = omega arith
Within-le (u ∷ us) b da db h = omega (
  arith,
  length-without u.pod b u db (h u.pod u (first_of_head u us)),
  Within-le us (without u.pod b) da.1 (without-AreDistinct u.pod b db)
      (Within-without u us b da.0 h),
)

-- A list that lies within another of its length is all of it.
Within-all :
    (a b : List PodSummary)
    → AreDistinct a
    → AreDistinct b
    → length a ≡ length b
    → Within a b
    → Within b a
unfolding first_of_pod
Within-all [] [] da db l h k v e = e
Within-all [] (x ∷ b) da db l h k v e = absurd (omega arith)
Within-all (u ∷ us) b da db l h k v e =
    let mine : first_of_pod u.pod b ≡ some u = h u.pod u (first_of_head u us) in
    let shorter = length-without u.pod b u db mine in
    let rest =
      Within-all us (without u.pod b) da.1 (without-AreDistinct u.pod b db)
        (omega (arith, l, shorter)) (Within-without u us b da.0 h) k v in
    elim (Bool-cases (k == u.pod)) [
      | inl t ↦
          let known : first_of_pod u.pod b ≡ some v =
            subst (λ x. first_of_pod x b ≡ some v) ((eq_iff k u.pod).0 t) e in
          rw t (sym mine ∙ known)
      | inr f ↦
          rw f
            (rest (first_of_pod-without k u.pod b ∙ ground (arith, eq_iff k u.pod, eq_iff u.pod k)))
    ]

-- Two lists say the same of each pod.
abbrev pub SamePods : List PodSummary → List PodSummary → Type 0
SamePods a b = (k : String) → first_of_pod k a ≡ first_of_pod k b

-- What is known of each pod: the lists, up to what they say.
abbrev pub CheckedPods : Type 0
CheckedPods = Quot SamePods

abbrev pub checked_pods : List PodSummary → CheckedPods
checked_pods = Quot.mk

String-discrete : Discrete String
String-discrete s t = elim (Bool-cases (s == t)) [
  | inl e ↦ yes ((eq_iff s t).0 e)
  | inr e ↦ no (λ p. absurd (differ p e))
]
  where
    differ : s ≡ t → (s == t) ≡ false → ⊥
    differ p e = cc ((eq_iff s t).1 p)

String-set : IsSet String
String-set = hedberg String-discrete

Option-set : IsSet (Option PodSummary)
Option-set = hlevel String-set

-- The summary of a pod is read from the view.
summary_of : String → CheckedPods → Option PodSummary
summary_of k = Quot.lift Option-set (first_of_pod k) (λ a b h. h k)

checked_pods-exact : (a b : List PodSummary) → checked_pods a ≡ checked_pods b → SamePods a b
unfolding summary_of
checked_pods-exact a b e k = ap (summary_of k) e

Within-same : (a b : List PodSummary) → Within a b → Within b a → SamePods a b
Within-same a b f g k = go (first_of_pod k a) (first_of_pod k b) (f k) (g k)
  where
    go :
        (x y : Option PodSummary)
        → ((v : PodSummary) → x ≡ some v → y ≡ some v)
        → ((v : PodSummary) → y ≡ some v → x ≡ some v)
        → x ≡ y
    go none none p q = refl
    go none (some v) p q = q v refl
    go (some v) y p q = sym (p v refl)

same-length :
    (a b : List PodSummary) → AreDistinct a → AreDistinct b → SamePods a b → length a ≡ length b
same-length a b da db h =
    omega
      (arith, Within-le a b da db (λ k v e. sym (h k) ∙ e), Within-le b a db da (λ k v e. h k ∙ e))

-- On two lists that name no pod twice, the function says that they are equal exactly where they are the
-- same as views: where each pod has the same summary in both, or none in either.
pub is_pod_summary_slice_equal-checked_pods :
    (a b : List PodSummary)
    → AreDistinct a
    → AreDistinct b
    → (is_pod_summary_slice_equal a b ≡ true) ↔ (checked_pods a ≡ checked_pods b)
is_pod_summary_slice_equal-checked_pods a b da db =
    let (sound, complete) = is_pod_summary_slice_equal_lem a b da db in
    (
      λ e. let (l, f) = sound e in Quot.sound (Within-same a b f (Within-all a b da db l f)),
      λ e.
          let h = checked_pods-exact a b e in
          complete (same-length a b da db h, λ k v f. sym (h k) ∙ f),
    )
