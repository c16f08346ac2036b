-- ===== src/Utils/Responses.antt =====
-- The helpers of controllers/utils/common_utils.go on responses, slices, logged names and errors.
use Prim.Native.String.{◌++◌}
use altershield_operator.Base.{String, ℕ, Bool, true, false, not, ◌||◌, List, [], ◌∷◌, eqb}
use altershield_operator.Base.Text.{begins_with}
use altershield_operator.Types.{Pod, ReplicaSet, Deployment, ChangePod, ChangeWorkload}

-- A value of a `gin.H`.
pub data Json : Type 0 where
  a_number : ℕ → Json
  a_text : String → Json

-- `GetCommonCallbackErr`, from `err.Error()`
unfoldable pub get_common_callback_err : String → List (String × Json)
get_common_callback_err message =
    ("code", a_number 50001)
    ∷ ("message", a_text "服务器内部错误")
    ∷ ("detail", a_text ("err:" ++ message))
    ∷ ("solution", a_text "请联系系统管理员解决问题")
    ∷ []

-- `GetCommonCallbackSuccess`
unfoldable pub get_common_callback_success : List (String × Json)
get_common_callback_success = ("code", a_number 200) ∷ ("message", a_text "服务请求成功") ∷ []

-- A value of type `interface{}` as `IsEmpty` tells it apart: nil, a slice or an array by its length, or
-- anything else.
pub data Dynamic : Type 0 where
  nil_value other_value : Dynamic
  sequence : ℕ → Dynamic

-- `IsEmpty`
unfoldable pub is_empty : Dynamic → Bool
is_empty nil_value = true
is_empty (sequence n) = eqb n 0
is_empty other_value = true

-- `IsNotEmpty`
unfoldable pub is_not_empty : Dynamic → Bool
is_not_empty nil_value = false
is_not_empty (sequence n) = not (eqb n 0)
is_not_empty other_value = false

-- The types that the switch of `GetResource` tells apart.
pub data Resource : Type 0 where
  of_pod : Pod → Resource
  of_deployment : Deployment → Resource
  of_replica_set : ReplicaSet → Resource
  of_change_workload : ChangeWorkload → Resource
  of_change_pod : ChangePod → Resource
  of_another : Resource

-- `GetResource`
unfoldable pub get_resource : Resource → String
get_resource (of_pod o) = o.namespace ++ ("/" ++ o.name)
get_resource (of_deployment o) = o.namespace ++ ("/" ++ o.name)
get_resource (of_replica_set o) = o.namespace ++ ("/" ++ o.name)
get_resource (of_change_workload o) = o.namespace ++ ("/" ++ o.name)
get_resource (of_change_pod o) = o.namespace ++ ("/" ++ o.name)
get_resource of_another = ""

-- `strings.Contains`
unfoldable pub contains : String → String → Bool
unfolding begins_with
contains String.[] sub = begins_with String.[] sub
contains (String.◌∷◌ c s) sub =
    let later = contains s sub in begins_with (String.◌∷◌ c s) sub || later

-- `IsObjectModifiedErr`, from `err.Error()`
unfoldable pub is_object_modified_err : String → Bool
unfolding contains
is_object_modified_err message =
    contains message
      "the object has been modified; please apply your changes to the latest version and try again"
