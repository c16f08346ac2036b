-- ===== src/Utils/Pods/Distinct.antt =====
-- What `RemoveDuplicatePod` keeps.
use altershield_operator.Base.{
  String, ◌≡◌, refl, false, ◌&&◌, ◌||◌, not, List, [], ◌∷◌, ◌++◌, Option, none, some, ◌==◌, eq_iff,
  arith, if◌then◌else◌, inl, inr, Bool-cases, ◌∙◌,
}
use altershield_operator.Types.{PodSummary, Pod}
use altershield_operator.Utils.Pods.{
  MapOf, has_key, appeared, append_if_needed, remove_duplicate_from, remove_duplicate_pod,
}

-- The first summary of the named pod.
unfoldable pub first_of_pod : String → List PodSummary → Option PodSummary
first_of_pod k [] = none
first_of_pod k (u ∷ us) = if k == u.pod then some u else first_of_pod k us

-- No two summaries name one pod.
abbrev pub AreDistinct : List PodSummary → Type 0
AreDistinct [] = Unit
AreDistinct (u ∷ us) = (appeared u.pod us ≡ false) × AreDistinct us

appeared-append :
    (k : String) (us : List PodSummary) (v : PodSummary)
    → appeared k (us ++ v ∷ []) ≡ (appeared k us || k == v.pod)
unfolding appeared
appeared-append k [] v = ground arith
appeared-append k (u ∷ us) v = ground (arith, appeared-append k us v)

AreDistinct-append :
    (us : List PodSummary) (v : PodSummary)
    → AreDistinct us
    → appeared v.pod us ≡ false
    → AreDistinct (us ++ v ∷ [])
unfolding appeared
AreDistinct-append [] v d h = ground arith
AreDistinct-append (u ∷ us) v d h = ground (
  arith,
  appeared-append u.pod us v,
  AreDistinct-append us v,
  eq_iff u.pod v.pod,
  eq_iff v.pod u.pod,
)

append_if_needed-AreDistinct :
    (m : MapOf Pod) (us : List PodSummary) (v : PodSummary)
    → AreDistinct us
    → AreDistinct (append_if_needed m us v)
unfolding append_if_needed
append_if_needed-AreDistinct m us v d =
    elim (Bool-cases (has_key v.pod m && not (appeared v.pod us))) [
      | inl e ↦ rw e (AreDistinct-append us v d (ground arith))
      | inr e ↦ rw e d
    ]

remove_duplicate_from-AreDistinct :
    (m : MapOf Pod) (us vs : List PodSummary)
    → AreDistinct us
    → AreDistinct (remove_duplicate_from m us vs)
unfolding remove_duplicate_from
remove_duplicate_from-AreDistinct m us [] d = d
remove_duplicate_from-AreDistinct m us (v ∷ vs) d =
    remove_duplicate_from-AreDistinct m (append_if_needed m us v) vs
      (append_if_needed-AreDistinct m us v d)

first_of_pod-append :
    (k : String) (us : List PodSummary) (v : PodSummary)
    → first_of_pod k (us ++ v ∷ [])
      ≡ (if appeared k us then first_of_pod k us else if k == v.pod then some v else none)
unfolding appeared first_of_pod
first_of_pod-append k [] v = refl
first_of_pod-append k (u ∷ us) v = ground (arith, first_of_pod-append k us v)

pub not_appeared :
    (k : String) (us : List PodSummary) → appeared k us ≡ false → first_of_pod k us ≡ none
unfolding appeared first_of_pod
not_appeared k [] h = refl
not_appeared k (u ∷ us) h = ground (arith, not_appeared k us)

abbrev first_kept : String → MapOf Pod → List PodSummary → List PodSummary → Option PodSummary
first_kept k m us vs =
    if appeared k us then first_of_pod k us else if has_key k m then first_of_pod k vs else none

first_kept-append_if_needed :
    (k : String) (m : MapOf Pod) (us : List PodSummary) (v : PodSummary) (vs : List PodSummary)
    → first_kept k m (append_if_needed m us v) vs ≡ first_kept k m us (v ∷ vs)
unfolding append_if_needed first_of_pod
first_kept-append_if_needed k m us v vs =
    elim (Bool-cases (has_key v.pod m && not (appeared v.pod us))) [
      | inl e ↦ rw e (
          ground (
            arith,
            appeared-append k us v,
            first_of_pod-append k us v,
            not_appeared k us,
            eq_iff k v.pod,
          ))
      | inr e ↦ rw e (ground (arith, eq_iff k v.pod))
    ]

remove_duplicate_from-first :
    (k : String) (m : MapOf Pod) (us vs : List PodSummary)
    → first_of_pod k (remove_duplicate_from m us vs) ≡ first_kept k m us vs
unfolding remove_duplicate_from first_of_pod
remove_duplicate_from-first k m us [] = ground (arith, not_appeared k us)
remove_duplicate_from-first k m us (v ∷ vs) =
    remove_duplicate_from-first k m (append_if_needed m us v) vs
    ∙ first_kept-append_if_needed k m us v vs

-- The result names no pod twice, and for each pod name it has the first summary of that name in the
-- given list if the name is in the map, and none otherwise.
pub remove_duplicate_pod_lem :
    (arr : List PodSummary) (m : MapOf Pod)
    → AreDistinct (remove_duplicate_pod arr m)
      × ((k : String)
          → first_of_pod k (remove_duplicate_pod arr m)
            ≡ (if has_key k m then first_of_pod k arr else none))
unfolding remove_duplicate_pod appeared
remove_duplicate_pod_lem arr m =
    (remove_duplicate_from-AreDistinct m [] arr tt, λ k. remove_duplicate_from-first k m [] arr)
