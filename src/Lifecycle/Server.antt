-- ===== src/Lifecycle/Server.antt =====
-- What a batch needs of what lies outside the operator to run to its end: a server that keeps a change pod
-- as it was last written, and a publishing service that accepts.
use altershield_operator.Base.{String, ◌≡◌, true, false, some, [], ◌∷◌, ℕ, suc, is_nil}
use altershield_operator.Base.Int.{ℤ, pos}
use altershield_operator.Client.{Client, Selector}
use altershield_operator.ChangePods.Notify.{node_id_of}
use altershield_operator.Exec.{done}
use altershield_operator.Exec.Leads.{Answers}
use altershield_operator.Predicates.{filter_pod_without_finished_or_defensed_label}
use altershield_operator.Types.{ChangePod, ChangePodStatus, NamespacedName, Pod}
use altershield_operator.Types.Opscloud.{OpsCloudResult}
use altershield_operator.Types.State.{ChangePodState}
use altershield_operator.Utils.Constants.{change_pod_field_change_pod_id}

-- The change pod with another status, as a write to the status subresource stores it.
abbrev pub with_status_of : ChangePod → ChangePod → ChangePod
with_status_of c d = record c { status = d.status }

abbrev pub key_of : ChangePod → NamespacedName
key_of c = record { namespace = c.namespace; name = c.name }

-- `Is c s` says that in the state `s` the server has `c` as the change pod that the batch is about. No one
-- else writes it: a call that does not write it leaves it alone. A read answers with it, an update stores
-- its specification and a write of its status the status. Its workload is there, with a threshold that is
-- positive, and so is a pod that waits for a batch; and the service accepts, with a node id.
pub record IsServing {S : Type 0} (api : Client S) (id : String) (Is : ChangePod → S → Type 0)
    : Type 0 where
  pub keeps_now : (c : ChangePod) (s : S) → Is c s → Is c (api.now s).1
  pub keeps_now_text :
      (c : ChangePod) (layout : String) (s : S) → Is c s → Is c (api.now_text layout s).1
  pub gets :
      (c : ChangePod) → Answers (Is c) (api.get_change_pod (key_of c)) (λ d s. (d ≡ c) × Is c s)
  pub lists :
      (c : ChangePod)
      → c.status.change_pod_id ≡ id
      → Answers
          (Is c)
          (api.list_change_pods change_pod_field_change_pod_id id)
          (λ cs s. (cs ≡ c ∷ []) × Is c s)
  pub updates :
      (c d : ChangePod)
      → Answers
          (Is c)
          (api.update_change_pod (record c { spec = d.spec }))
          (λ e s. (e ≡ record c { spec = d.spec }) × Is (record c { spec = d.spec }) s)
  pub updates_status :
      (c d : ChangePod)
      → Answers
          (Is c)
          (api.update_change_pod_status (with_status_of c d))
          (λ e s. (e ≡ with_status_of c d) × Is (with_status_of c d) s)
  pub patches_status :
      (c d : ChangePod)
      → Answers
          (Is c)
          (api.patch_change_pod_status c d)
          (λ e s. (e ≡ with_status_of c d) × Is (with_status_of c d) s)
  pub has_workload :
      (c : ChangePod)
      → Answers
          (Is c)
          (api.get_workload (record { namespace = c.namespace; name = c.spec.change_workload_id }))
          (λ w s. ((n : ℕ) × (w.spec.count_threshold ≡ pos (suc n))) × Is c s)
  pub has_pods :
      (c : ChangePod) (labels : Selector)
      → c.spec.pod_infos ≡ []
      → Answers
          (Is c)
          (api.list_pods c.namespace labels)
          (λ pods s. (is_nil (filter_pod_without_finished_or_defensed_label pods) ≡ false) × Is c s)
  pub patches_pod :
      (c : ChangePod) (before after : Pod)
      → Answers (Is c) (api.patch_pod before after) (λ pod s. Is c s)
  pub is_reached :
      (c : ChangePod) (uri : String) (headers : Selector) (body : String)
      → Answers (Is c) (api.http_do uri headers body) (λ resp s. Is c s)
  pub is_accepted :
      (c : ChangePod) (resp : String)
      → Answers (Is c) (api.read_all resp) (λ text s.
        ((result : OpsCloudResult) × (api.unmarshal text ≡ done result)
          × (result.success ≡ true)
          × (node_id_of result.domain ≡ some id))
        × Is c s)

-- The server has this change pod, with a status that satisfies `T`.
abbrev pub Has :
    {S : Type 0} → (ChangePod → S → Type 0) → ChangePod → (ChangePodStatus → Type 0) → S → Type 0
Has Is c T s = (t : ChangePodStatus) × T t × Is (record c { status = t }) s

-- What a setter makes of a status: the new one, with the times that the clock gives.
abbrev pub IsStamped : ChangePodState → ChangePodStatus → ChangePodStatus → Type 0
IsStamped st t u =
    (time : String) × (unix : ℤ) × (u
      ≡ record t { status = st; update_time = time; update_time_unix = unix })

-- What the setters of the two submitted statuses keep.
abbrev pub IsSubmitted : ChangePodState → ChangePodStatus → ChangePodStatus → Type 0
IsSubmitted st t u = (u.status ≡ st) × (u.change_pod_id ≡ t.change_pod_id)
