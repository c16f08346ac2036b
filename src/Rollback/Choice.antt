-- ===== src/Rollback/Choice.antt =====
-- The tests of the rollback loop, and the template that it writes, in terms of what they mean.
use mathlib.Core.Path.{subst}
use altershield_operator.Base.{
  String, ◌≡◌, ◌≢◌, refl, ◌∙◌, sym, Bool, true, false, ◌&&◌, not, List, [], ◌∷◌, ◌==◌, ◌⊎◌, inl,
  inr, Bool-cases, All, Any, arith, none,
}
use altershield_operator.Base.Int.{ℤ, pos, negsuc, eqb_ℤ}
use altershield_operator.Base.Labels.{get_label?, get_label?-delete_label}
use altershield_operator.Rollback.{
  check_deployment_status, is_normal, first_normal, rolled_back, pod_template_hash,
}
use altershield_operator.Types.{Deployment, ReplicaSet}
use altershield_operator.Workloads.Query.{empty_replica_set}

-- A deployment is healthy where its replicas, the ready, the available and the updated ones are as many.
abbrev pub IsHealthy : Deployment → Type 0
IsHealthy d =
    (d.replicas ≡ d.ready_replicas)
    × (d.ready_replicas ≡ d.available_replicas)
    × (d.available_replicas ≡ d.updated_replicas)

-- Another replica set than the given one runs where it has replicas, all of them ready and available.
abbrev pub IsOther : ReplicaSet → ReplicaSet → Type 0
IsOther owns rs =
    ((rs.name == owns.name) ≡ false)
    × (rs.replicas ≢ pos 0)
    × (rs.replicas ≡ rs.ready_replicas)
    × (rs.ready_replicas ≡ rs.available_replicas)

-- The deployment with the template of the replica set, without the hash label, and nothing else changed.
abbrev pub IsTakenBack : Deployment → ReplicaSet → Deployment → Type 0
IsTakenBack d rs e =
    (e ≡ record d { template_labels = e.template_labels; template_spec = rs.template_spec })
    × (get_label? pod_template_hash e.template_labels ≡ none)
    × ((k : String)
        → (pod_template_hash == k) ≡ false
        → get_label? k e.template_labels ≡ get_label? k rs.template_labels)

eqb_ℤ_path : (a b : ℤ) → eqb_ℤ a b ≡ true → a ≡ b
eqb_ℤ_path (pos m) (pos n) h = ground arith
eqb_ℤ_path (pos m) (negsuc n) h = ground arith
eqb_ℤ_path (negsuc m) (pos n) h = ground arith
eqb_ℤ_path (negsuc m) (negsuc n) h = ground arith

eqb_ℤ_refl : (a : ℤ) → eqb_ℤ a a ≡ true
eqb_ℤ_refl (pos m) = ground arith
eqb_ℤ_refl (negsuc m) = ground arith

eqb_ℤ-true : (a b : ℤ) → a ≡ b → eqb_ℤ a b ≡ true
eqb_ℤ-true a b h = rw (← h) (eqb_ℤ_refl a)

and_split : (a b : Bool) → (a && b) ≡ true → (a ≡ true) × (b ≡ true)
and_split true b h = (refl, h)
and_split false b h = absurd cc

not_split : (b : Bool) → not b ≡ true → b ≡ false
not_split true h = absurd cc
not_split false h = refl

apart : {x : Bool} → x ≡ true → x ≡ false → ⊥
apart p q = cc

pub check_deployment_status-IsHealthy :
    (d : Deployment) → check_deployment_status d ≡ true → IsHealthy d
unfolding check_deployment_status
check_deployment_status-IsHealthy d h =
    let (h, z) = and_split _ _ h in
    let (x, y) = and_split _ _ h in (eqb_ℤ_path _ _ x, eqb_ℤ_path _ _ y, eqb_ℤ_path _ _ z)

pub check_deployment_status-unhealthy :
    (d : Deployment) → check_deployment_status d ≡ false → ¬ (IsHealthy d)
unfolding check_deployment_status
check_deployment_status-unhealthy d h (p, q, r) =
    apart (rw (eqb_ℤ-true _ _ p, eqb_ℤ-true _ _ q, eqb_ℤ-true _ _ r) refl) h

is_normal-IsOther : (owns rs : ReplicaSet) → is_normal owns.name rs ≡ true → IsOther owns rs
unfolding is_normal
is_normal-IsOther owns rs h =
    let (h, u) = and_split _ _ h in
    let (h, z) = and_split _ _ h in
    let (x, y) = and_split _ _ h in
    (
      not_split _ x,
      (λ e. apart (eqb_ℤ-true _ _ e) (not_split _ y)),
      eqb_ℤ_path _ _ z,
      eqb_ℤ_path _ _ u,
    )

is_normal-not : (owns rs : ReplicaSet) → is_normal owns.name rs ≡ false → ¬ (IsOther owns rs)
unfolding is_normal
is_normal-not owns rs h (x, y, z, u) = elim (Bool-cases (eqb_ℤ rs.replicas (pos 0))) [
  | inl e ↦ y (eqb_ℤ_path _ _ e)
  | inr e ↦ apart (rw (x, e, eqb_ℤ-true _ _ z, eqb_ℤ-true _ _ u) refl) h
]

later :
    (owns rs : ReplicaSet) (sets : List ReplicaSet)
    → is_normal owns.name rs ≡ false
    → first_normal owns.name (rs ∷ sets) ≡ first_normal owns.name sets
unfolding first_normal
later owns rs sets e = rw e refl

-- What is chosen is a replica set of the list that runs, or there is none.
pub first_normal-cases :
    (owns : ReplicaSet) (sets : List ReplicaSet)
    → Any (λ rs. (first_normal owns.name sets ≡ rs) × IsOther owns rs) sets
      ⊎ (first_normal owns.name sets ≡ empty_replica_set) × All (λ rs. ¬ (IsOther owns rs)) sets
unfolding first_normal
first_normal-cases owns [] = inr (refl, tt)
first_normal-cases owns (rs ∷ sets) = elim (Bool-cases (is_normal owns.name rs)) [
  | inl e ↦ inl (inl (rw e refl, is_normal-IsOther owns rs e))
  | inr e ↦ elim (first_normal-cases owns sets) [
    | inl h ↦
        inl (
          inr
            (subst (λ r. Any (λ x. (r ≡ x) × IsOther owns x) sets) (sym (later owns rs sets e)) h))
    | inr (h, none_runs) ↦ inr (rw e h, (is_normal-not owns rs e, none_runs))
  ]
]

pub rolled_back-IsTakenBack :
    (d : Deployment) (rs : ReplicaSet) → IsTakenBack d rs (rolled_back d rs)
unfolding rolled_back
rolled_back-IsTakenBack d rs =
    let deleted = λ (k : String). get_label?-delete_label pod_template_hash k rs.template_labels in
    (refl, deleted pod_template_hash, (λ k n. deleted k ∙ rw n refl))
