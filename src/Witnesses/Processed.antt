-- ===== src/Witnesses/Processed.antt =====
-- A server that stores one deployment, for which no workload is there yet.
use altershield_operator.Base.{◌≡◌, refl, [], inr}
use altershield_operator.Base.Int.{pos}
use altershield_operator.Base.Labels.{has_label}
use altershield_operator.Client.{Client}
use altershield_operator.Deployments.Idempotence.{IsKeeping, IsSettled, reconcile-IsSettled}
use altershield_operator.Exec.{World, done, failed}
use altershield_operator.Predicates.{is_defensed}
use altershield_operator.Types.{Deployment}
use altershield_operator.Witnesses.Sample.{server, missing, plain_deployment}

abbrev keeping : Client Deployment
keeping = record (server {S = Deployment}) {
  get_deployment = λ key d. (done d, d);
  get_workload = λ key d. (failed missing, d);
  patch_deployment = λ before after d. (done after, after);
}

abbrev Stores : Deployment → Deployment → Type 0
Stores d s = s ≡ d

keeping-IsKeeping : IsKeeping keeping Stores
keeping-IsKeeping = record {
  keeps_now = λ d s p. p;
  keeps_now_text = λ d layout s p. p;
  keeps_is_batch = λ d s p. p;
  keeps_batch_count = λ d s p. p;
  gets = λ d s p. (s, refl, (p, p));
  looks = λ d key s p. inr (missing, refl, (refl, p));
  creates = λ d w s p. (w, refl, p);
  patches = λ d after s p. (after, refl, refl);
}

abbrev new_deployment : World Deployment
new_deployment = record { server = plain_deployment; issued = [] }

reconcile-IsSettled_example :
    IsSettled keeping Stores keeping-IsKeeping plain_deployment new_deployment
unfolding is_defensed has_label
reconcile-IsSettled_example =
    reconcile-IsSettled keeping Stores keeping-IsKeeping plain_deployment (pos 4) [] new_deployment
      refl refl refl refl
