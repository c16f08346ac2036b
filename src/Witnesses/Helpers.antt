-- ===== src/Witnesses/Helpers.antt =====
-- The theorems about the helpers of controllers/utils, applied to concrete pods and numbers.
use altershield_operator.Base.{
  String, ◌≡◌, ◌↔◌, refl, true, false, List, [], ◌∷◌, none, if◌then◌else◌,
}
use altershield_operator.Base.Text.{begins_with}
use altershield_operator.Types.{ChangePod, NamespacedName, PodSummary}
use altershield_operator.Types.State.{pre_wait}
use altershield_operator.Utils.Names.{
  get_pod_namespace_name_from_pod, get_change_pod_namespace_name_from_change_pod,
  get_resource_type_from_namespace_name, is_pod_resource_type, is_change_pod_resource_type,
  IsReadAs, requests_round_trip,
}
use altershield_operator.Utils.Pods.{
  remove_duplicate_pod, has_key, appeared, is_pod_summary_slice_equal,
}
use altershield_operator.Utils.Pods.Distinct.{AreDistinct, first_of_pod, remove_duplicate_pod_lem}
use altershield_operator.Utils.Pods.View.{checked_pods, is_pod_summary_slice_equal-checked_pods}
use altershield_operator.Witnesses.Sample.{change_pod_in, summary, web_pod, a_then_b}

abbrev two_of_a : List PodSummary
two_of_a = summary "a" "pass" ∷ summary "b" "pass" ∷ summary "a" "fail" ∷ []

remove_duplicate_pod_lem_example :
    AreDistinct (remove_duplicate_pod two_of_a (("a", web_pod) ∷ []))
    × ((k : String)
        → first_of_pod k (remove_duplicate_pod two_of_a (("a", web_pod) ∷ []))
          ≡ (if has_key k (("a", web_pod) ∷ []) then first_of_pod k two_of_a else none))
remove_duplicate_pod_lem_example = remove_duplicate_pod_lem two_of_a (("a", web_pod) ∷ [])

abbrev b_then_a : List PodSummary
b_then_a = summary "b" "pass" ∷ summary "a" "pass" ∷ []

is_pod_summary_slice_equal-checked_pods_example :
    (is_pod_summary_slice_equal a_then_b b_then_a ≡ true)
    ↔ (checked_pods a_then_b ≡ checked_pods b_then_a)
unfolding appeared
is_pod_summary_slice_equal-checked_pods_example =
    is_pod_summary_slice_equal-checked_pods a_then_b b_then_a (refl, (refl, tt)) (refl, (refl, tt))

abbrev batch : ChangePod
batch = change_pod_in pre_wait []

abbrev web_key : NamespacedName
web_key = record { namespace = "default"; name = "web-x--1" }

requests_round_trip_example :
    IsReadAs
      (get_pod_namespace_name_from_pod web_pod)
      true
      false
      (record { namespace = "default"; name = "web-x--1" })
    × IsReadAs
        (get_change_pod_namespace_name_from_change_pod batch)
        false
        true
        (record { namespace = batch.namespace; name = batch.name })
    × (is_pod_resource_type (get_resource_type_from_namespace_name web_key) ≡ false)
    × (is_change_pod_resource_type (get_resource_type_from_namespace_name web_key) ≡ false)
unfolding begins_with
requests_round_trip_example = requests_round_trip web_pod batch web_key refl
