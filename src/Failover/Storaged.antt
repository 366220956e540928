-- ===== src/Failover/Storaged.antt =====
-- pkg/controller/component/storaged_failover.go: the balancing of the spaces that follows the failover
-- of the storage component.
pub mod Balanced
use nebula_operator.Common.{ℕ, none, List, ◌≡◌, refl, ap, sym, ◌∙◌}
use nebula_operator.Common.Effect.{M, Outcome, ok, err, panic, ◌>>=◌, ◌>>◌}
use nebula_operator.Nebula.World.{World, StoragedStatus, modify}
use nebula_operator.Nebula.Meta.{MetaServer, meta_list_spaces, meta_balance_leader}
use nebula_operator.Storaged.Api.{ApiServer, with_client}
use nebula_operator.Storaged.Visit.{for_unlisted}
use nebula_operator.Storaged.Balancer.{add_balanced, balance_space}
use nebula_operator.Storaged.Scaler.{make_balanced}
use nebula_operator.Failover.Hosts.{FailoverCall, FailoverServer, Failures}
use nebula_operator.Failover.Manager.{failover, storaged}

pub record StoragedFailures : Type 0 where
  pub failures : Failures
  pub world : World

module _ (api : ApiServer) (meta : MetaServer) where
  -- A space that is balanced is added to the list twice: by `balanceSpace`, and here.
  unfoldable pub balance_failed_space : ℕ → M World (Unit {0})
  balance_failed_space s = do
    balance_space api meta s
    meta_balance_leader meta s
    modify (λ st. add_balanced st s)

  abbrev pub balanced_after_failover : StoragedStatus → StoragedStatus
  balanced_after_failover st = record st { balanced_spaces = none; last_balance_job = none }

  unfoldable pub balance_data_of_spaces : M World (Unit {0})
  balance_data_of_spaces = do
    spaces ← meta_list_spaces meta
    make_balanced api meta spaces
    for_unlisted (λ st. st.balanced_spaces) balance_failed_space spaces
    modify balanced_after_failover

  unfoldable pub balance_after_failover : M World (Unit {0})
  unfolding balance_data_of_spaces
  balance_after_failover = with_client meta balance_data_of_spaces

-- The servers answer after the calls that the failover has made.
module _ (server : FailoverServer) (api : List FailoverCall → ApiServer)
    (meta : List FailoverCall → MetaServer) where
  unfoldable pub balance_once :
      World → Outcome (Unit {0}) × Failures → Outcome (Unit {0}) × StoragedFailures
  balance_once w (ok a, u) =
      let (o, v) = balance_after_failover (api u.calls) (meta u.calls) w in
      (o, record { failures = u; world = v })
  balance_once w (err e, u) = (err e, record { failures = u; world = w })
  balance_once w (panic, u) = (panic, record { failures = u; world = w })

  -- `Failover` of the storage component.
  unfoldable pub storaged_failover : M StoragedFailures (Unit {0})
  storaged_failover w = balance_once w.world (failover server storaged w.failures)
