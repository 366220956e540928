-- ===== src/Failover/Metad.antt =====
-- pkg/controller/component/metad_failover.go and the failover of metad_cluster.go: the operations of this
-- component, which have the text of `Failover.Manager` and `Failover.Detect`.
use nebula_operator.Common.{Bool, List}
use nebula_operator.Common.Effect.{M}
use nebula_operator.Scheduler.PodName.{Name}
use nebula_operator.Failover.Hosts.{FailoverServer, Failures, Hosts}
use nebula_operator.Failover.Manager
use nebula_operator.Failover.Manager.{Component}
use nebula_operator.Failover.Detect
use nebula_operator.Failover.Detect.{FailoverSpec}

abbrev pub metad_recovery : List Name → M Failures (Unit {0})
metad_recovery = Manager.recovery

abbrev pub is_metad_auto_failovering : Hosts → Bool
is_metad_auto_failovering = Detect.is_auto_failovering

module _ (server : FailoverServer) where
  abbrev pub try_restart_metad_pod : M Failures (Unit {0})
  try_restart_metad_pod = Manager.try_restart_pod server

  abbrev pub tolerate_metad_pods : M Failures (List Name)
  tolerate_metad_pods = Manager.tolerate_pods server

  abbrev pub delete_failure_metad_pod_and_pvc : M Failures (Unit {0})
  delete_failure_metad_pod_and_pvc = Manager.delete_failure_pod_and_pvc server Component.metad

  abbrev pub check_pending_metad_pod : M Failures (Unit {0})
  check_pending_metad_pod = Manager.check_pending_pod server

  abbrev pub metad_failover : M Failures (Unit {0})
  metad_failover = Manager.failover server Component.metad

  module _ (spec : FailoverSpec) where
    abbrev pub sync_metad_failure_hosts : M Failures (Unit {0})
    sync_metad_failure_hosts = Detect.sync_failure_hosts server spec

    abbrev pub should_recover_metad : M Failures (Bool × List Name)
    should_recover_metad = Detect.should_recover server spec

    abbrev pub auto_failover_metad : M Failures (Unit {0})
    auto_failover_metad = Detect.auto_failover server spec metad_failover

    abbrev pub reconcile_metad_failures : M Failures (Unit {0})
    reconcile_metad_failures = Detect.reconcile_failures server spec metad_failover
