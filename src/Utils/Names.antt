-- ===== src/Utils/Names.antt =====
-- The request names of common_utils.go: a watched pod or change pod is queued under its own name
-- behind a mark of its kind, and the reconciler of change workloads takes the mark off again.
use Prim.Native.String.{◌++◌}
use text.Mathlib.TextLemmas.{append_assoc}
use text.Mathlib.TextEquality.{eq_iff}
use Prim.Native.Char.{Char}
use Prim.Native.Nat.{zero}
use altershield_operator.Base.{
  String, Bool, true, false, List, [], ◌∷◌, ◌==◌, ◌≡◌, refl, ap, ◌∙◌, inl, inr, Bool-cases,
}
use altershield_operator.Base.Text.{begins_with, push, split, split_from, join}
use altershield_operator.Base.Text.Laws.{join-split, split-append}
use altershield_operator.Types.{NamespacedName, Pod, ChangePod}
use altershield_operator.Utils.Constants.{meta_mark, resource_type_pod, resource_type_change_pod}

-- `CombineString`
unfoldable pub combine_string : String → String → String
combine_string s1 s2 = (s1 ++ meta_mark) ++ s2

-- `strings.Split(name, MetaMark)`: the mark is "--x--".
abbrev pub name_parts : String → List String
name_parts name = split "-" "-x--" name

abbrev pub rest_parts : List String → List String
rest_parts [] = []
rest_parts (p ∷ ps) = ps

abbrev pub first_part : List String → String
first_part [] = ""
first_part (p ∷ ps) = p

-- `GetPodNameSpaceNameFromPod`
unfoldable pub get_pod_namespace_name_from_pod : Pod → NamespacedName
get_pod_namespace_name_from_pod pod = record {
  namespace = pod.namespace;
  name = (resource_type_pod ++ meta_mark) ++ pod.name;
}

-- `GetChangePodNameSpaceNameFromChangePod`
unfoldable pub get_change_pod_namespace_name_from_change_pod : ChangePod → NamespacedName
get_change_pod_namespace_name_from_change_pod change_pod = record {
  namespace = change_pod.namespace;
  name = (resource_type_change_pod ++ meta_mark) ++ change_pod.name;
}

-- `GetPodRequestFromPodNameSpaceName`
unfoldable pub get_pod_request_from_pod_namespace_name : NamespacedName → NamespacedName
get_pod_request_from_pod_namespace_name n = record {
  namespace = n.namespace;
  name = join meta_mark (rest_parts (name_parts n.name));
}

-- `GetResourceTypeFromNamespaceName`: a split has a first part always.
unfoldable pub get_resource_type_from_namespace_name : NamespacedName → String
get_resource_type_from_namespace_name n = first_part (name_parts n.name)

unfoldable pub is_pod_resource_type : String → Bool
is_pod_resource_type t = t == resource_type_pod

unfoldable pub is_change_pod_resource_type : String → Bool
is_change_pod_resource_type t = t == resource_type_change_pod

parts_of_pod :
    (s : String)
    → name_parts ((resource_type_pod ++ meta_mark) ++ s) ≡ resource_type_pod ∷ name_parts s
parts_of_pod s =
    ap name_parts (append_assoc resource_type_pod meta_mark s)
    ∙ split-append "-" "-x--" resource_type_pod s refl

parts_of_change_pod :
    (s : String)
    → name_parts ((resource_type_change_pod ++ meta_mark) ++ s)
      ≡ resource_type_change_pod ∷ name_parts s
parts_of_change_pod s =
    ap name_parts (append_assoc resource_type_change_pod meta_mark s)
    ∙ split-append "-" "-x--" resource_type_change_pod s refl

apart : {x : Bool} → x ≡ true → x ≡ false → ⊥
apart p q = cc

begins_with-push :
    (d a : Char) (s : String) (parts : List String)
    → begins_with (String.◌∷◌ a s) (String.◌∷◌ d "") ≡ false
    → begins_with (first_part (push a parts)) (String.◌∷◌ d "") ≡ false
unfolding begins_with
begins_with-push d a s [] h = h
begins_with-push d a s (p ∷ ps) h = h

-- The first part of a split begins as the text does, or is empty.
begins_with-first_part :
    (d c : Char) (sep s : String)
    → begins_with s (String.◌∷◌ d "") ≡ false
    → begins_with (first_part (split c sep s)) (String.◌∷◌ d "") ≡ false
unfolding begins_with split split_from
begins_with-first_part d c sep String.[] h = refl
begins_with-first_part d c sep (String.◌∷◌ a s) h =
    elim (Bool-cases (begins_with (String.◌∷◌ a s) (String.◌∷◌ c sep))) [
      | inl e ↦ rw e refl
      | inr e ↦ rw e (begins_with-push d a s (split_from c sep zero s) h)
    ]

no_type :
    (t type : String)
    → begins_with t "[" ≡ false
    → begins_with type "[" ≡ true
    → (t == type) ≡ false
no_type t type h k = elim (Bool-cases (t == type)) [
  | inl e ↦ absurd (apart (ap (λ x. begins_with x "[") ((eq_iff t type).0 e) ∙ k) h)
  | inr e ↦ e
]

pub pod_request_round_trip :
    (pod : Pod)
    → let n = get_pod_namespace_name_from_pod pod in
      (get_pod_request_from_pod_namespace_name n
        ≡ record { namespace = pod.namespace; name = pod.name })
      × (is_pod_resource_type (get_resource_type_from_namespace_name n) ≡ true)
      × (is_change_pod_resource_type (get_resource_type_from_namespace_name n) ≡ false)
unfolding get_pod_namespace_name_from_pod get_pod_request_from_pod_namespace_name
    get_resource_type_from_namespace_name is_change_pod_resource_type is_pod_resource_type
pod_request_round_trip pod =
    (rw (parts_of_pod pod.name, join-split), rw (parts_of_pod pod.name), rw (parts_of_pod pod.name))

pub change_pod_request_round_trip :
    (change_pod : ChangePod)
    → let n = get_change_pod_namespace_name_from_change_pod change_pod in
      (get_pod_request_from_pod_namespace_name n
        ≡ record { namespace = change_pod.namespace; name = change_pod.name })
      × (is_change_pod_resource_type (get_resource_type_from_namespace_name n) ≡ true)
      × (is_pod_resource_type (get_resource_type_from_namespace_name n) ≡ false)
unfolding get_change_pod_namespace_name_from_change_pod get_pod_request_from_pod_namespace_name
    get_resource_type_from_namespace_name is_change_pod_resource_type is_pod_resource_type
change_pod_request_round_trip cp = (
  rw (parts_of_change_pod cp.name, join-split),
  rw (parts_of_change_pod cp.name),
  rw (parts_of_change_pod cp.name),
)

workload_request :
    (key : NamespacedName)
    → begins_with key.name "[" ≡ false
    → (is_pod_resource_type (get_resource_type_from_namespace_name key) ≡ false)
      × (is_change_pod_resource_type (get_resource_type_from_namespace_name key) ≡ false)
unfolding get_resource_type_from_namespace_name is_change_pod_resource_type is_pod_resource_type
    begins_with
workload_request key h =
    let h' = begins_with-first_part "[" "-" "-x--" key.name h in
    (no_type _ resource_type_pod h' refl, no_type _ resource_type_change_pod h' refl)

-- What the reconciler of change workloads reads from a request: whether it is a pod's or a change pod's,
-- and whose.
abbrev pub IsReadAs : NamespacedName → Bool → Bool → NamespacedName → Type 0
IsReadAs n is_pod is_change_pod key =
    (is_pod_resource_type (get_resource_type_from_namespace_name n) ≡ is_pod)
    × (is_change_pod_resource_type (get_resource_type_from_namespace_name n) ≡ is_change_pod)
    × (get_pod_request_from_pod_namespace_name n ≡ key)

-- The three kinds of request are told apart and read back. A pod's request reads as a pod's only and a
-- change pod's as a change pod's only, and each, decoded, is the object's own namespace and name, whatever
-- the name holds, the mark included. A workload's own request, whose name does not begin with a bracket,
-- as no name of the API server does, reads as neither.
pub requests_round_trip :
    (pod : Pod) (change_pod : ChangePod) (key : NamespacedName)
    → begins_with key.name "[" ≡ false
    → IsReadAs
        (get_pod_namespace_name_from_pod pod)
        true
        false
        (record { namespace = pod.namespace; name = pod.name })
      × IsReadAs
          (get_change_pod_namespace_name_from_change_pod change_pod)
          false
          true
          (record { namespace = change_pod.namespace; name = change_pod.name })
      × (is_pod_resource_type (get_resource_type_from_namespace_name key) ≡ false)
      × (is_change_pod_resource_type (get_resource_type_from_namespace_name key) ≡ false)
requests_round_trip pod change_pod key h =
    let (e, f, g) = pod_request_round_trip pod in
    let (a, b, c) = change_pod_request_round_trip change_pod in
    let (x, y) = workload_request key h in ((f, g, e), (c, b, a), x, y)
