-- ===== src/Workloads/Suspend.antt =====
-- `addOrRemoveDeploymentSuspendLabel`: how a deployment is suspended and released.
use altershield_operator.Base.{Bool, true, false, not, Option, none, some, if◌then◌else◌}
use altershield_operator.Base.Labels.{Labels, has_label, set_label, delete_label}
use altershield_operator.Calls.{patch_deployment}
use altershield_operator.Exec.{Exec, pure, sample, write, or_crash, ◌>>=◌}
use altershield_operator.Client.{Client}
use altershield_operator.Types.{Deployment}
use altershield_operator.Utils.Constants.{
  suspend_label, ignored_suspend_label, defense_status_label,
}

-- The labels of a released deployment; `none` is the write to a nil map.
unfoldable pub released_labels : Labels → Option Labels
unfolding set_label delete_label
released_labels l = elim (set_label ignored_suspend_label "true" l) [
  | none ↦ none
  | some m ↦ some (delete_label defense_status_label (delete_label suspend_label m))
]

module _ {S : Type 0} (api : Client S) where
  -- `r.Patch(ctx, deployment, patch)`
  unfoldable pub patch_labels : Deployment → Labels → Exec S (Unit {0})
  patch_labels d l = do
    let changed = record d { labels = l }
    stored ← write (patch_deployment d changed) (api.patch_deployment d changed)
    pure tt

  -- The branch that adds the label.
  unfoldable pub add_suspend_label : Deployment → Exec S (Unit {0})
  unfolding patch_labels has_label set_label
  add_suspend_label d = if has_label suspend_label d.labels then pure tt else do
    unix ← sample api.now
    l ← or_crash (set_label suspend_label (api.format_int unix) d.labels)
    patch_labels d l

  -- The branch that removes it.
  unfoldable pub remove_suspend_label : Deployment → Exec S (Unit {0})
  unfolding patch_labels has_label released_labels
  remove_suspend_label d =
      if not (has_label suspend_label d.labels)
      then pure tt
      else do l ← or_crash (released_labels d.labels); patch_labels d l

  -- `addOrRemoveDeploymentSuspendLabel`: the configuration is asked only to add.
  unfoldable pub add_or_remove_deployment_suspend_label : Deployment → Bool → Exec S (Unit {0})
  unfolding add_suspend_label remove_suspend_label
  add_or_remove_deployment_suspend_label d false = remove_suspend_label d
  add_or_remove_deployment_suspend_label d true = do
    blocking ← sample api.is_blocking_up
    if blocking then add_suspend_label d else remove_suspend_label d
