-- ===== src/Examples/Failing.antt =====
-- A component with two failure hosts, whose pods do not recover by themselves, and one with a pod that
-- does.
use nebula_operator.Common.{
  Bool, true, false, none, some, List, [], ◌∷◌, ◌≡◌, refl, arith, All, same, inl, inr, Bool-cases,
}
use nebula_operator.Common.Effect.{ok, err, panic, not_found}
use nebula_operator.Condition.Status.{get_condition}
use nebula_operator.Scheduler.PodName.{Name}
use nebula_operator.Storaged.Api.{PodPhase}
use nebula_operator.Nebula.Meta.{meta_list_spaces, meta_balance_leader}
use nebula_operator.Nebula.Jobs.{balance_status}
use nebula_operator.Storaged.Visit.{for_unlisted}
use nebula_operator.Storaged.Balancer.{balance_space, follow_or_start, followed, record_balanced}
use nebula_operator.Storaged.Scaler.{make_balanced}
use nebula_operator.Storaged.Scaler.Spaces.{AllBalanced}
use nebula_operator.Failover.Hosts.{
  entries, put, find_pod, get_pod_and_pvcs, is_pod_condition_scheduled_true, for_hosts, FailureHost,
  Hosts, HostStatus, FailoverServer, Failures, lookup, is_pod_healthy, is_pod_running_and_ready,
  is_pod_terminating,
}
use nebula_operator.Failover.Manager.{
  graphd, storaged, failover, try_restart_pod, tolerate_pods, delete_failure_pod_and_pvc,
  check_pending_pod, restart_one, tolerate_one, tolerate_all, rebuild_one, check_one, check_found,
  release_claims, delete_pending,
}
use nebula_operator.Failover.Manager.Moves.{Moves, failover-Moves}
use nebula_operator.Failover.Manager.Done.{contains_name, failover-rebuilt}
use nebula_operator.Failover.Manager.Missing.{failover_panics}
use nebula_operator.Failover.Detect.{
  FailoverSpec, should_recover, reconcile_failures, should_recover_hosts, healthy_pods,
  online_hosts, with_hosts,
}
use nebula_operator.Failover.Detect.Preserves.{AllHosts}
use nebula_operator.Failover.Detect.Confirmed.{ConfirmedLate, reconcile-ConfirmedLate}
use nebula_operator.Failover.Detect.Healthy.{FoundHealthy, should_recover_ok}
use nebula_operator.Failover.Storaged.{
  StoragedFailures, storaged_failover, balance_once, balance_after_failover, balance_data_of_spaces,
  balance_failed_space,
}
use nebula_operator.Failover.Storaged.Balanced.{storaged_failover_ok}
use nebula_operator.Examples.Servers.{meta_of, api_server, world}

-- "g-0", "g-1", and the address "g-0.s" of the first.
abbrev first_pod : Name
first_pod = b'g' ∷ b'-' ∷ b'0' ∷ []

abbrev second_pod : Name
second_pod = b'g' ∷ b'-' ∷ b'1' ∷ []

abbrev first_address : Name
first_address = b'g' ∷ b'-' ∷ b'0' ∷ b'.' ∷ b's' ∷ []

abbrev keys : Hosts → List Name
keys [] = []
keys ((name, fh) ∷ hosts) = name ∷ keys hosts

-- `ready` tells whether the pods are ready.
abbrev server_of : Bool → FailoverServer
server_of ready = record {
  pod = λ _. ok (record {
    phase = PodPhase.running;
    terminating = false;
    created = 0;
    node_name = 1;
    conditions = [];
  });
  node = λ _. ok [];
  done = λ _. ok tt;
  pvcs = λ _. ok (record { uid = 7; deleting = false; finalizers = 1 ∷ [] } ∷ []);
  now = λ _. 100000000000;
  selector = λ _. ok tt;
  is_pod_ready = λ _. ready;
  connected = λ _. ok tt;
  hosts_of =
      λ _. ok (record { address = first_address; port = 9; status = HostStatus.online } ∷ []);
  range = λ _ hosts. keys hosts;
}

abbrev stuck_server : FailoverServer
stuck_server = server_of false

abbrev empty_server : FailoverServer
empty_server = record stuck_server { pod = λ _. err not_found }

-- A host that was confirmed after a minute, with the steps that were taken.
abbrev failure_host : Name → Bool → FailureHost
failure_host address done = record {
  host = address;
  pvc_set = 7 ∷ [];
  pod_restarted = done;
  pod_rebuilt = done;
  node_down = false;
  creation_time = 0;
  confirmation_time = some 70000000000;
  deletion_time = none;
}

abbrev failing : Bool → Failures
failing done = record {
  failure_hosts = some (
      (first_pod, failure_host first_address done)
      ∷ (second_pod, failure_host second_pod done)
      ∷ []);
  calls = [];
}

failover-Moves_example :
    Moves (failing false).failure_hosts (failover stuck_server graphd (failing false))
failover-Moves_example = failover-Moves stuck_server graphd (failing false)

keys_all :
    (hosts : Hosts) (name : Name) (fh : FailureHost)
    → lookup hosts name ≡ some fh
    → contains_name (keys hosts) name ≡ true
unfolding lookup
keys_all [] name fh x = absurd (ground arith)
keys_all ((n, old) ∷ hosts) name fh x = elim (Bool-cases (same n name)) [
  | inl e ↦ ground arith
  | inr e ↦ ground (arith, keys_all hosts name fh (ground arith))
]

graphd_storaged_differ : ¬ (graphd ≡ storaged)
graphd_storaged_differ e = ground arith

failover-rebuilt_example :
    ((failover stuck_server graphd (failing true)).1.failure_hosts ≡ (failing true).failure_hosts)
    × ((name : Name) (fh : FailureHost)
        → lookup (entries (failover stuck_server graphd (failing true)).1.failure_hosts) name
          ≡ some fh
        → fh.pod_rebuilt ≡ true)
unfolding failover try_restart_pod tolerate_pods delete_failure_pod_and_pvc check_pending_pod
    for_hosts lookup restart_one tolerate_one tolerate_all rebuild_one check_one check_found
    get_pod_and_pvcs find_pod release_claims delete_pending is_pod_condition_scheduled_true
    get_condition
failover-rebuilt_example =
    failover-rebuilt stuck_server graphd (failing true) _ (λ _. keys_all) graphd_storaged_differ
      refl

failover_panics_example : (failover empty_server storaged (failing false)).0 ≡ panic
unfolding lookup
failover_panics_example =
    failover_panics empty_server storaged (failing false) second_pod (failure_host second_pod false)
      (λ _. refl) (λ _. keys_all) refl refl

abbrev storaged_failing : StoragedFailures
storaged_failing = record { failures = failing true; world = world }

abbrev storaged_failed : StoragedFailures
storaged_failed =
    (storaged_failover stuck_server (λ _. api_server) (λ _. meta_of 7) storaged_failing).1

storaged_failover_ok_example :
    (storaged_failed.failures.failure_hosts ≡ (failing true).failure_hosts)
    × (storaged_failed.world.cluster.storaged.balanced_spaces ≡ none)
    × (storaged_failed.world.cluster.storaged.last_balance_job ≡ none)
    × AllBalanced api_server
        (meta_of 7)
        world.cluster.storaged.balanced_spaces
        world.cluster.storaged.last_balance_job
unfolding storaged_failover balance_once balance_after_failover balance_data_of_spaces
    balance_failed_space failover try_restart_pod tolerate_pods delete_failure_pod_and_pvc
    check_pending_pod for_hosts lookup restart_one tolerate_one tolerate_all rebuild_one check_one
    check_found get_pod_and_pvcs find_pod release_claims delete_pending
    is_pod_condition_scheduled_true get_condition meta_list_spaces make_balanced for_unlisted
    balance_space follow_or_start balance_status followed record_balanced meta_balance_leader
storaged_failover_ok_example =
    storaged_failover_ok stuck_server (λ _. api_server) (λ _. meta_of 7) storaged_failing
      storaged_failed refl

abbrev spec : FailoverSpec
spec = record {
  auto_failover_enabled = true;
  failover_period = 60000000000;
  replicas = 2;
  workload_replicas = some 2;
  thrift_port = 9;
}

two_hosts_late : AllHosts (ConfirmedLate 60000000000) (failing false).failure_hosts
unfolding lookup
two_hosts_late name fh x t e = elim (Bool-cases (same first_pod name)) [
  | inl y ↦ ground arith
  | inr y ↦ elim (Bool-cases (same second_pod name)) [
    | inl z ↦ ground arith
    | inr z ↦ absurd (ground arith)
  ]
]

reconcile-ConfirmedLate_example :
    AllHosts
      (ConfirmedLate 60000000000)
      (reconcile_failures stuck_server spec
        (failover stuck_server graphd)
        (failing false)).1.failure_hosts
reconcile-ConfirmedLate_example =
    reconcile-ConfirmedLate stuck_server spec graphd (failing false) (λ _ _. omega arith)
      two_hosts_late

should_recover_ok_example :
    All (FoundHealthy (server_of true) (failing false).failure_hosts) (first_pod ∷ [])
unfolding should_recover should_recover_hosts healthy_pods online_hosts with_hosts lookup put
    find_pod is_pod_healthy is_pod_running_and_ready is_pod_terminating
should_recover_ok_example =
    should_recover_ok (server_of true) spec (first_pod ∷ []) (failing false) _ refl
