-- ===== src/OpsConfig.antt =====
-- controllers/opsconfiginfo_controller.go, and the records that controllers/utils/config.go and
-- recource_create.go create: the configuration of the operator as a custom resource.
pub mod Values
use altershield_operator.Base.{String, Bool, true, false, not, if◌then◌else◌, ◌==◌}
use altershield_operator.Base.Int.{ℤ, pos}
use altershield_operator.Calls.{
  delete_config, create_config, send_is_batch, send_batch_count, send_is_blocking_up,
}
use altershield_operator.Exec.{
  Reply, done, failed, Exec, pure, ask, write, attempt, ◌>>=◌, ◌>>◌, ignore_not_found,
}
use altershield_operator.Client.{Client}
use altershield_operator.Types.{OpsConfigInfo, NamespacedName}
use altershield_operator.Utils.Constants.{
  operator_namespace, config_type_is_branch, config_name_is_branch, config_type_is_blocking_up,
  config_name_is_blocking_up,
}

-- `strconv.Atoi`, where an error counts as 1.
abbrev pub parsed_count : Reply ℤ → ℤ
parsed_count (done n) = n
parsed_count (failed e) = pos 1

module _ {S : Type 0} (api : Client S) where
  -- A send on a configuration channel.
  unfoldable pub send_batch : Bool → Exec S (Unit {0})
  send_batch v = write (send_is_batch v) (λ s. (done tt, s))

  unfoldable pub send_count : ℤ → Exec S (Unit {0})
  send_count v = write (send_batch_count v) (λ s. (done tt, s))

  unfoldable pub send_blocking : Bool → Exec S (Unit {0})
  send_blocking v = write (send_is_blocking_up v) (λ s. (done tt, s))

  unfoldable pub remove : OpsConfigInfo → Exec S (Unit {0})
  remove c = write (delete_config c) (api.delete_config c)

  -- `configTypeIsBranchHandel`: a count that is no number counts as 1, and so does a disabled one.
  unfoldable pub config_type_is_branch_handle : OpsConfigInfo → Exec S (Unit {0})
  unfolding send_batch send_count remove
  config_type_is_branch_handle c = if not (c.name == config_name_is_branch) then remove c else do
    send_batch c.enable
    send_count (if c.enable then parsed_count (api.atoi c.content) else pos 1)

  -- `configTypeIsBlockingUpHandel`
  unfoldable pub config_type_is_blocking_up_handle : OpsConfigInfo → Exec S (Unit {0})
  unfolding send_blocking remove
  config_type_is_blocking_up_handle c =
      if not (c.name == config_name_is_blocking_up) then remove c else send_blocking c.enable

  -- `Reconcile`, from the record that was read.
  unfoldable pub with_config : OpsConfigInfo → Exec S (Unit {0})
  unfolding config_type_is_branch_handle config_type_is_blocking_up_handle remove
  with_config c =
      if not (c.namespace == operator_namespace)
      then remove c
      else if c.type == config_type_is_branch
      then config_type_is_branch_handle c
      else if c.type == config_type_is_blocking_up
      then config_type_is_blocking_up_handle c
      else pure tt

  -- `Reconcile`
  unfoldable pub reconcile : NamespacedName → Exec S (Unit {0})
  unfolding with_config ignore_not_found
  reconcile key = do
    reply ← attempt (ask (api.get_config key))
    elim reply [ failed e ↦ ignore_not_found e tt | done c ↦ with_config c ]

  -- `NewOpsConfigInfoBatchFunc`
  unfoldable pub new_ops_config_info_batch : OpsConfigInfo
  new_ops_config_info_batch = record {
    namespace = operator_namespace;
    name = config_name_is_branch;
    type = config_type_is_branch;
    content = api.format_int (pos 10);
    remark = "Enabling Batch Protection";
    enable = false;
  }

  -- `NewOpsConfigInfoBlockFunc`
  unfoldable pub new_ops_config_info_block : OpsConfigInfo
  new_ops_config_info_block = record {
    namespace = operator_namespace;
    name = config_name_is_blocking_up;
    type = config_type_is_blocking_up;
    content = "";
    remark = "Enabling Blockade";
    enable = true;
  }

  -- A default is created where the record is not found; every error is only logged.
  unfoldable pub create_if_missing : String → OpsConfigInfo → Exec S (Unit {0})
  create_if_missing name fresh = do
    reply ← attempt (ask (api.get_config (record { namespace = operator_namespace; name = name })))
    elim reply [
      | done c ↦ pure tt
      | failed e ↦
          if e.not_found
          then (do
            created ← attempt (write (create_config fresh) (api.create_config fresh))
            pure tt)
          else pure tt
    ]

  -- `newBatchConfig`
  unfoldable pub new_batch_config : Exec S (Unit {0})
  unfolding create_if_missing new_ops_config_info_batch
  new_batch_config = create_if_missing config_name_is_branch new_ops_config_info_batch

  -- `newBlockUpConfig`
  unfoldable pub new_block_up_config : Exec S (Unit {0})
  unfolding create_if_missing new_ops_config_info_block
  new_block_up_config = create_if_missing config_name_is_blocking_up new_ops_config_info_block

  -- One round of `configInit`, which repeats it every second.
  unfoldable pub config_init_round : Exec S (Unit {0})
  unfolding new_batch_config new_block_up_config
  config_init_round = do new_batch_config; new_block_up_config
