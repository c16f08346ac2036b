-- ===== src/Rollback/Reads.antt =====
-- The reads of the rollback loop: each ends with a value, and none writes.
use altershield_operator.Base.{
  ℕ, String, ◌≡◌, refl, ap, ◌∙◌, Bool, true, false, List, [], ◌∷◌, Option, none, some,
  if◌then◌else◌, inl, inr, ◌⊎◌, ◌<◌, ◌≤◌, ◌==◌, ltb, length, Any, All, Bool-cases, sym, arith,
}
use altershield_operator.Base.Int.{ℤ}
use altershield_operator.Client.{Client}
use altershield_operator.Exec.{
  Reply, done, failed, Reply-cases, Outcome, ok, World, Exec, pure, ask, sample, attempt, ◌>>=◌,
}
use altershield_operator.Rollback.{
  or_else, is_old, is_stuck, put_pods, get_non_running_pods, replica_set_named,
  get_pod_owns_replica_set, deployment_named, get_replica_set_owns_deployment,
  get_normal_replica_set, first_normal,
}
use altershield_operator.Timeouts.{listed}
use altershield_operator.Types.{Deployment, Pod, ReplicaSet}
use altershield_operator.Utils.Pods.{MapOf}
use altershield_operator.Workloads.Query.{empty_deployment, empty_replica_set}
use altershield_operator.Rollback.Choice.{IsOther, first_normal-cases}
use altershield_operator.Rollback.Tours.{
  replica_set_of, owner_of, deployment_in, deployment_of, sets_of, HasOther, HasNoOther,
}

many_lem : (n : ℕ) → ltb 1 n ≡ true → 1 < n
many_lem n h = ground arith

few_lem : (n : ℕ) → ltb 1 n ≡ false → n ≤ 1
few_lem n h = ground arith

apart : {x : Bool} → x ≡ true → x ≡ false → ⊥
apart p q = cc

module _ {S : Type 0} (api : Client S) where
  -- The replica set that is chosen in a state, an empty one where there is none.
  abbrev pub other_of : Deployment → ReplicaSet → S → ReplicaSet
  other_of d owns s =
      let sets = sets_of api d s in
      if ltb 1 (length sets) then first_normal owns.name sets else empty_replica_set

  others :
      (d : Deployment) (owns : ReplicaSet) (s : S)
      → (1 < length (sets_of api d s))
          × ((Any (λ rs. (other_of d owns s ≡ rs) × IsOther owns rs) (sets_of api d s))
              ⊎ (other_of d owns s ≡ empty_replica_set)
                × All (λ rs. ¬ (IsOther owns rs)) (sets_of api d s))
        ⊎ (length (sets_of api d s) ≤ 1) × (other_of d owns s ≡ empty_replica_set)
  others d owns s = elim (Bool-cases (ltb 1 (length (sets_of api d s)))) [
    | inl e ↦ inl (many_lem _ e, rw e (first_normal-cases owns (sets_of api d s)))
    | inr e ↦ inr (few_lem _ e, rw e refl)
  ]

  Any-map :
      {P Q : ReplicaSet → Type 0} (sets : List ReplicaSet)
      → ((rs : ReplicaSet) → P rs → Q rs)
      → Any P sets
      → Any Q sets
  Any-map [] f h = h
  Any-map (rs ∷ sets) f (inl p) = inl (f rs p)
  Any-map (rs ∷ sets) f (inr h) = inr (Any-map sets f h)

  pub other_of-HasNoOther :
      (d : Deployment) (owns : ReplicaSet) (s : S)
      → ((other_of d owns s).name == "") ≡ true
      → HasNoOther api d owns
  other_of-HasNoOther d owns s h = elim (others d owns s) [
    | inl (many, k) ↦ elim k [
      | inl some_one ↦ (
        s,
        inr (
            inr (
              Any-map _ (λ rs p. (ap (λ (x : ReplicaSet). x.name == "") (sym p.0) ∙ h, p.1))
                some_one)),
      )
      | inr (e, none_runs) ↦ (s, inr (inl none_runs))
    ]
    | inr (few, e) ↦ (s, inl few)
  ]

  pub other_of-HasOther :
      (d : Deployment) (owns : ReplicaSet) (s : S)
      → ((other_of d owns s).name == "") ≡ false
      → HasOther api d owns (other_of d owns s)
  other_of-HasOther d owns s h = elim (others d owns s) [
    | inl (many, k) ↦ elim k [
      | inl some_one ↦ (s, many, Any-map _ (λ rs p. (sym p.0, p.1)) some_one)
      | inr (e, none_runs) ↦ absurd (named e h)
    ]
    | inr (few, e) ↦ absurd (named e h)
  ]
    where
      named : {rs : ReplicaSet} → rs ≡ empty_replica_set → (rs.name == "") ≡ false → ⊥
      named e n = apart (ap (λ (x : ReplicaSet). x.name == "") e) n

  -- An action that reads: it ends with a value that the server has in some state, and writes nothing.
  abbrev pub IsReading : {A : Type 0} → (S → A) → Exec S A → Type 0
  IsReading f m = (w : World S) → (s : S) × ((m w).0 ≡ ok (f s)) × ((m w).1.issued ≡ w.issued)

  pub then_lem :
      {A B : Type 0} (m : Exec S A) (f : A → Exec S B) (w : World S) {a : A}
      → (m w).0 ≡ ok a
      → (m >>= f) w ≡ f a (m w).1
  unfolding ◌>>=◌
  then_lem m f w e = rw e refl

  pub read_lem :
      {A B : Type 0} (f : S → Reply A × S) (g : Reply A → B) (w : World S)
      → ((do reply ← attempt (ask f); pure (g reply)) w)
        ≡ (ok (g (f w.server).0), record w { server = (f w.server).1 })
  unfolding ◌>>=◌
  read_lem f g w = elim (Reply-cases (f w.server).0) [
    | inl (a, e) ↦ rw e refl
    | inr (x, e) ↦ rw e refl
  ]

  read_lem-IsReading :
      {A B : Type 0} (f : S → Reply A × S) (g : Reply A → B)
      → IsReading (λ s. g (f s).0) (do reply ← attempt (ask f); pure (g reply))
  read_lem-IsReading f g w =
      let e = read_lem f g w in
      (w.server, ap (λ r. r.0) e, ap (λ (r : Outcome _ × World S). r.1.issued) e)

  replica_set_of-IsReading :
      (ns : String) (o : Option String)
      → IsReading (replica_set_of api ns o) (replica_set_named api ns o)
  unfolding replica_set_named pure
  replica_set_of-IsReading ns none w = (w.server, refl, refl)
  replica_set_of-IsReading ns (some name) w = read_lem-IsReading _ (or_else empty_replica_set) w

  deployment_in-IsReading :
      (ns : String) (o : Option String)
      → IsReading (deployment_in api ns o) (deployment_named api ns o)
  unfolding deployment_named pure
  deployment_in-IsReading ns none w = (w.server, refl, refl)
  deployment_in-IsReading ns (some name) w = read_lem-IsReading _ (or_else empty_deployment) w

  pub owner_of-IsReading :
      (pod : Pod) → IsReading (owner_of api pod) (get_pod_owns_replica_set api pod)
  unfolding get_pod_owns_replica_set
  owner_of-IsReading pod w = replica_set_of-IsReading _ _ w

  pub deployment_of-IsReading :
      (rs : ReplicaSet) → IsReading (deployment_of api rs) (get_replica_set_owns_deployment api rs)
  unfolding get_replica_set_owns_deployment
  deployment_of-IsReading rs w = deployment_in-IsReading _ _ w

  pub other_of-IsReading :
      (d : Deployment) (owns : ReplicaSet)
      → IsReading (other_of d owns) (get_normal_replica_set api d owns)
  unfolding get_normal_replica_set
  other_of-IsReading d owns w = read_lem-IsReading _ _ w

  -- An action that ends with a value and writes nothing.
  abbrev IsQuiet : {A : Type 0} → Exec S A → Type 0
  IsQuiet {A} m = (w : World S) → (a : A) × ((m w).0 ≡ ok a) × ((m w).1.issued ≡ w.issued)

  IsQuiet-bind :
      {A B : Type 0} (m : Exec S A) (f : A → Exec S B)
      → IsQuiet m
      → ((a : A) → IsQuiet (f a))
      → IsQuiet (m >>= f)
  IsQuiet-bind m f hm hf w =
      let (a, ends, same) = hm w in
      let (b, ends', same') = hf a (m w).1 in
      let go = then_lem m f w ends in (b, rw go ends', rw go (same' ∙ same))

  IsQuiet-sample : {A : Type 0} (f : S → A × S) → IsQuiet (sample f)
  unfolding ◌>>=◌
  IsQuiet-sample f w = (_, refl, refl)

  IsQuiet-pure : {A : Type 0} (a : A) → IsQuiet (pure {S = S} a)
  unfolding pure
  IsQuiet-pure a w = (a, refl, refl)

  IsQuiet-if :
      {A : Type 0} (b : Bool) (m n : Exec S A)
      → IsQuiet m
      → IsQuiet n
      → IsQuiet (if b then m else n)
  IsQuiet-if true m n hm hn = hm
  IsQuiet-if false m n hm hn = hn

  IsQuiet-attempt : {A : Type 0} (f : S → Reply A × S) → IsQuiet (attempt (ask f))
  unfolding ◌>>=◌
  IsQuiet-attempt f w = elim (Reply-cases (f w.server).0) [
    | inl (a, e) ↦ (done a, rw e refl, rw e refl)
    | inr (x, e) ↦ (failed x, rw e refl, rw e refl)
  ]

  IsQuiet-is_old : (start : Option ℤ) → IsQuiet (is_old api start)
  unfolding is_old
  IsQuiet-is_old none = IsQuiet-pure false
  IsQuiet-is_old (some start) = IsQuiet-sample _

  IsQuiet-is_stuck : (pod : Pod) → IsQuiet (is_stuck api pod)
  unfolding is_stuck
  IsQuiet-is_stuck pod =
      IsQuiet-if _ _ _ (IsQuiet-pure false)
        (IsQuiet-if _ _ _ (IsQuiet-is_old pod.start_time) (IsQuiet-pure false))

  IsQuiet-put_pods : (pods : List Pod) (m : MapOf Pod) → IsQuiet (put_pods api m pods)
  unfolding put_pods
  IsQuiet-put_pods [] m = IsQuiet-pure m
  IsQuiet-put_pods (pod ∷ pods) m =
      IsQuiet-bind _ _ (IsQuiet-is_stuck pod) (λ stuck. IsQuiet-put_pods pods _)

  pub IsQuiet-get_non_running_pods : (ns : String) → IsQuiet (get_non_running_pods api ns)
  unfolding get_non_running_pods
  IsQuiet-get_non_running_pods ns =
      IsQuiet-bind _ _ (IsQuiet-attempt _)
        (λ reply. IsQuiet-bind _ _ (IsQuiet-put_pods (listed reply) []) (λ m. IsQuiet-sample _))
