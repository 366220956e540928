-- ===== src/Failover/Graphd.antt =====
-- pkg/controller/component/graphd_failover.go and the failover of graphd_cluster.go: the operations of this
-- component, which have the text of `Failover.Manager` and `Failover.Detect`.
use nebula_operator.Common.{Bool, List}
use nebula_operator.Common.Effect.{M}
use nebula_operator.Scheduler.PodName.{Name}
use nebula_operator.Failover.Hosts.{FailoverServer, Failures, Hosts}
use nebula_operator.Failover.Manager
use nebula_operator.Failover.Manager.{Component}
use nebula_operator.Failover.Detect
use nebula_operator.Failover.Detect.{FailoverSpec}

abbrev pub graphd_recovery : List Name → M Failures (Unit {0})
graphd_recovery = Manager.recovery

abbrev pub is_graphd_auto_failovering : Hosts → Bool
is_graphd_auto_failovering = Detect.is_auto_failovering

module _ (server : FailoverServer) where
  abbrev pub try_restart_graphd_pod : M Failures (Unit {0})
  try_restart_graphd_pod = Manager.try_restart_pod server

  abbrev pub tolerate_graphd_pods : M Failures (List Name)
  tolerate_graphd_pods = Manager.tolerate_pods server

  abbrev pub delete_failure_graphd_pod_and_pvc : M Failures (Unit {0})
  delete_failure_graphd_pod_and_pvc = Manager.delete_failure_pod_and_pvc server Component.graphd

  abbrev pub check_pending_graphd_pod : M Failures (Unit {0})
  check_pending_graphd_pod = Manager.check_pending_pod server

  abbrev pub graphd_failover : M Failures (Unit {0})
  graphd_failover = Manager.failover server Component.graphd

  module _ (spec : FailoverSpec) where
    abbrev pub sync_graphd_failure_hosts : M Failures (Unit {0})
    sync_graphd_failure_hosts = Detect.sync_failure_hosts server spec

    abbrev pub should_recover_graphd : M Failures (Bool × List Name)
    should_recover_graphd = Detect.should_recover server spec

    abbrev pub auto_failover_graphd : M Failures (Unit {0})
    auto_failover_graphd = Detect.auto_failover server spec graphd_failover

    abbrev pub reconcile_graphd_failures : M Failures (Unit {0})
    reconcile_graphd_failures = Detect.reconcile_failures server spec graphd_failover
