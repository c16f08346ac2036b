-- ===== src/OpsConfig/Values.antt =====
-- What becomes of a configuration record: the values that the variables have after its reconcile.
use altershield_operator.Base.{
  ◌≡◌, refl, Bool, true, false, ◌&&◌, not, List, [], ◌∷◌, ◌++◌, if◌then◌else◌, ◌==◌, Bool-cases,
  inl, inr,
}
use altershield_operator.Base.Int.{pos}
use altershield_operator.Calls.{
  Call, delete_config, send_is_batch, send_batch_count, send_is_blocking_up,
}
use altershield_operator.Client.{Client}
use altershield_operator.Config.{
  Config, Message, batch_value, count_value, blocking_value, receive, config_run,
}
use altershield_operator.Exec.{◌>>=◌, write, pure}
use altershield_operator.OpsConfig.{
  with_config, config_type_is_branch_handle, config_type_is_blocking_up_handle, send_batch,
  send_count, send_blocking, remove, parsed_count,
}
use altershield_operator.Types.{OpsConfigInfo}
use altershield_operator.Utils.Constants.{
  operator_namespace, config_type_is_branch, config_name_is_branch, config_type_is_blocking_up,
  config_name_is_blocking_up,
}

-- The messages of the channels among the calls, which are the latest first, in the order in which they
-- were sent.
abbrev pub sent : List Call → List Message
sent [] = []
sent (send_is_batch v ∷ cs) = sent cs ++ (batch_value v ∷ [])
sent (send_batch_count n ∷ cs) = sent cs ++ (count_value n ∷ [])
sent (send_is_blocking_up v ∷ cs) = sent cs ++ (blocking_value v ∷ [])
sent (_ ∷ cs) = sent cs

-- The records that the calls delete.
abbrev pub deleted : List Call → List OpsConfigInfo
deleted [] = []
deleted (delete_config c ∷ cs) = c ∷ deleted cs
deleted (_ ∷ cs) = deleted cs

-- A record is of the one kind, the other kind or neither, and stands where it belongs or not.
abbrev pub is_branch : OpsConfigInfo → Bool
is_branch c = c.type == config_type_is_branch

abbrev pub is_blocking : OpsConfigInfo → Bool
is_blocking c = not (is_branch c) && (c.type == config_type_is_blocking_up)

abbrev pub is_misplaced : OpsConfigInfo → Bool
is_misplaced c =
    if not (c.namespace == operator_namespace)
    then true
    else if is_branch c
    then not (c.name == config_name_is_branch)
    else if is_blocking c
    then not (c.name == config_name_is_blocking_up)
    else false

module _ {S : Type 0} (api : Client S) where
  -- The variables once a record counts.
  abbrev pub configured : OpsConfigInfo → Config → Config
  configured c before =
      if is_misplaced c
      then before
      else if is_branch c
      then record before {
        is_batch = c.enable;
        batch_count = if c.enable then parsed_count (api.atoi c.content) else pos 1;
        is_batch_ready = true;
        batch_count_ready = true;
      }
      else if is_blocking c
      then record before { is_blocking_up = c.enable; is_blocking_up_ready = true }
      else before

  -- The calls of the reconcile of a record that was read.
  abbrev pub calls_of : OpsConfigInfo → S → List Call
  calls_of c s = (with_config api c (record { server = s; issued = [] })).1.issued

  -- After the reconcile of a record, the variables are as before where the record is misplaced (not in
  -- the operator's namespace, or of a kind that has another name) or of no kind, and else have what the
  -- record says; a disabled batch count, and one that is no number, is 1. A record is deleted where it is
  -- misplaced, and in no other case.
  pub with_config-configured :
      (c : OpsConfigInfo) (s : S) (before : Config)
      → (config_run before (sent (calls_of c s)) ≡ configured c before)
        × (deleted (calls_of c s) ≡ (if is_misplaced c then c ∷ [] else []))
  unfolding with_config config_type_is_branch_handle config_type_is_blocking_up_handle send_batch
      send_count send_blocking remove config_run receive write pure ◌>>=◌
  with_config-configured c s before = elim (Bool-cases (c.namespace == operator_namespace)) [
    | inr n ↦ rw (calls_of, with_config, n) (refl, refl)
    | inl n ↦ elim (Bool-cases (c.type == config_type_is_branch)) [
      | inl t ↦ elim (Bool-cases (c.name == config_name_is_branch)) [
        | inl m ↦ rw (calls_of, with_config, config_type_is_branch_handle, n, t, m) (refl, refl)
        | inr m ↦ rw (calls_of, with_config, config_type_is_branch_handle, n, t, m) (refl, refl)
      ]
      | inr t ↦ elim (Bool-cases (c.type == config_type_is_blocking_up)) [
        | inr u ↦ rw (calls_of, with_config, n, t, u) (refl, refl)
        | inl u ↦ elim (Bool-cases (c.name == config_name_is_blocking_up)) [
          | inl m ↦
              rw (calls_of, with_config, config_type_is_blocking_up_handle, n, t, u, m) (refl, refl)
          | inr m ↦
              rw (calls_of, with_config, config_type_is_blocking_up_handle, n, t, u, m) (refl, refl)
        ]
      ]
    ]
  ]
