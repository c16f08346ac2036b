-- ===== src/Utils/Pods.antt =====
-- The helpers of common_utils.go on lists of pod summaries.
pub mod Distinct
pub mod Equal
pub mod View
use altershield_operator.Base.{
  String, Bool, true, false, ◌&&◌, not, ◌||◌, List, [], ◌∷◌, ◌++◌, Option, none, some, ◌==◌,
  if◌then◌else◌, eqb, length,
}
use altershield_operator.Base.Labels.{lookup, insert}
use altershield_operator.Types.{PodSummary, Pod}

-- A Go map from names, by its entries.
abbrev pub MapOf : Type 0 → Type 0
MapOf V = List (String × V)

-- `_, ok := m[k]`
abbrev pub has_key {ℓ} : {V : Type ℓ} → String → List (String × V) → Bool
has_key k m = elim (lookup k m) [ none ↦ false | some _ ↦ true ]

-- Whether a summary of the named pod is among those kept so far.
unfoldable pub appeared : String → List PodSummary → Bool
appeared k [] = false
appeared k (u ∷ us) = k == u.pod || appeared k us

-- One round of the loop of `RemoveDuplicatePod`: the summaries kept after it.
unfoldable pub append_if_needed : MapOf Pod → List PodSummary → PodSummary → List PodSummary
unfolding appeared
append_if_needed m unique v =
    if has_key v.pod m && not (appeared v.pod unique) then unique ++ v ∷ [] else unique

unfoldable pub remove_duplicate_from :
    MapOf Pod → List PodSummary → List PodSummary → List PodSummary
unfolding append_if_needed
remove_duplicate_from m unique [] = unique
remove_duplicate_from m unique (v ∷ vs) = remove_duplicate_from m (append_if_needed m unique v) vs

-- `RemoveDuplicatePod`
unfoldable pub remove_duplicate_pod : List PodSummary → MapOf Pod → List PodSummary
unfolding remove_duplicate_from
remove_duplicate_pod arr m = remove_duplicate_from m [] arr

-- `a == b` on the struct.
abbrev pub same_summary : PodSummary → PodSummary → Bool
same_summary a b =
    a.app == b.app
    && a.hostname == b.hostname
    && a.workspace == b.workspace
    && a.pod == b.pod
    && a.ip == b.ip
    && a.namespace == b.namespace
    && a.verdict == b.verdict
    && a.message == b.message

-- `for _, p := range a { aMap[p.Pod] = p }`
unfoldable pub by_name : MapOf PodSummary → List PodSummary → MapOf PodSummary
by_name m [] = m
by_name m (p ∷ ps) = by_name (insert p.pod p m) ps

abbrev pub holds : Option PodSummary → PodSummary → Bool
holds none v = false
holds (some w) v = same_summary w v

-- The loop over the entries of `aMap`.
unfoldable pub entries_in : MapOf PodSummary → MapOf PodSummary → Bool
entries_in [] b = true
entries_in ((k, v) ∷ a) b = holds (lookup k b) v && entries_in a b

-- `IsPodSummarySliceEqual`
unfoldable pub is_pod_summary_slice_equal : List PodSummary → List PodSummary → Bool
unfolding by_name entries_in
is_pod_summary_slice_equal a b =
    if not (eqb (length a) (length b))
    then false
    else if eqb (length a) 0
    then true
    else entries_in (by_name [] a) (by_name [] b)
