-- ===== src/Failover/Manager/Ends.antt =====
-- pkg/controller/component/{graphd,metad,storaged}_failover.go: the reconciliations that call
-- `Failover` again while it returns a `ReconcileError`.
use nebula_operator.Common.{ℕ, zero, suc}
use nebula_operator.Common.Effect.{Outcome, ok, err, panic, reconcile, not_found, job_failed, other}
use nebula_operator.Failover.Hosts.{FailoverServer, Failures, Hosts}
use nebula_operator.Failover.Manager.{Component, failover}
use nebula_operator.Failover.Manager.Live.{Live}

abbrev pub retried :
    Outcome (Unit {0}) × Failures
    → (Failures → Outcome (Unit {0}) × Failures)
    → Outcome (Unit {0}) × Failures
retried (ok a, w) again = (ok a, w)
retried (err not_found, w) again = (err not_found, w)
retried (err reconcile, w) again = again w
retried (err job_failed, w) again = (err job_failed, w)
retried (err (other n), w) again = (err (other n), w)
retried (panic, w) again = (panic, w)

-- At most so many calls of `Failover`.
unfoldable pub reconciliations :
    FailoverServer → Component → ℕ → Failures → Outcome (Unit {0}) × Failures
reconciliations server c zero w = (err reconcile, w)
reconciliations server c (suc k) w = retried (failover server c w) (reconciliations server c k)
