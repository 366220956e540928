-- ===== src/Failover/Detect.antt =====
-- pkg/controller/component/{graphd,metad,storaged}_cluster.go: which hosts are failure hosts, when they
-- are confirmed, and when the failover is left for the recovery. The three files have the same text but
-- for the component's name and the kind of hosts that the meta service is asked for.
pub mod Preserves
pub mod Recover
pub mod Healthy
pub mod Confirmed
use nebula_operator.Common.{
  ℕ, ◌+◌, Bool, true, false, not, ◌&&◌, ◌||◌, Option, none, some, List, [], ◌∷◌, ◌++◌, ◌==◌, leb,
  ltb, map, if◌then◌else◌,
}
use nebula_operator.Common.Effect.{M, Outcome, ok, err, panic, ◌>>=◌, ◌>>◌, return}
use nebula_operator.Scheduler.PodName.{Name}
use nebula_operator.Failover.Hosts.{
  FailureHost, Hosts, Table, lookup, put, Claim, FailedPod, ServiceHost, HostStatus, online,
  offline, unknown, FailoverCall, connect, list_hosts, disconnect, FailoverServer, Failures,
  entries, request, change, put_host, get_pod_ordinal, is_pod_healthy, time, find_pod,
  get_pod_and_pvcs, range_hosts, visit,
}
use nebula_operator.Failover.Manager.{Component, delete_key, recovery, failover, is_nil}

-- What the code reads of the cluster's specification: `workload_replicas` is none where the status has
-- no workload yet.
pub record FailoverSpec : Type 0 where
  pub auto_failover_enabled : Bool
  pub failover_period : ℕ
  pub replicas : ℕ
  pub workload_replicas : Option ℕ
  pub thrift_port : ℕ

unfoldable pub get_workload_replicas : Option ℕ → ℕ
get_workload_replicas none = 0
get_workload_replicas (some replicas) = replicas

-- `strings.Split(host, ".")[0]`
unfoldable pub first_label : Name → Name
first_label [] = []
first_label (c ∷ s) = let rest = first_label s in if c == b'.' then [] else c ∷ rest

abbrev pub is_offline : HostStatus → Bool
is_offline offline = true
is_offline _ = false

abbrev pub is_online : HostStatus → Bool
is_online online = true
is_online _ = false

-- `int32(ordinal) >= replicas`, where `none` is -1.
abbrev pub out_of_replicas : Option ℕ → ℕ → Bool
out_of_replicas none replicas = false
out_of_replicas (some ordinal) replicas = leb replicas ordinal

abbrev pub make_hosts : Option Hosts → Option Hosts
make_hosts none = some []
make_hosts (some hosts) = some hosts

abbrev pub new_failure_host : Name → ℕ → FailureHost
new_failure_host address now = record {
  host = address;
  pvc_set = [];
  pod_restarted = false;
  pod_rebuilt = false;
  node_down = false;
  creation_time = now;
  confirmation_time = none;
  deletion_time = none;
}

abbrev pub confirmed : FailureHost → ℕ → List Claim → FailureHost
confirmed fh now pvcs = record fh {
  confirmation_time = some now;
  pvc_set = map (λ (c : Claim). c.uid) pvcs;
}

abbrev pub is_confirmed : FailureHost → Bool
is_confirmed fh = elim (fh.confirmation_time) [ none ↦ false | some t ↦ true ]

unfoldable pub is_auto_failovering : Hosts → Bool
is_auto_failovering [] = false
is_auto_failovering ((name, fh) ∷ hosts) = is_confirmed fh || is_auto_failovering hosts

module _ (server : FailoverServer) where
  abbrev pub closing : {A : Type 0} → M Failures A → M Failures A
  closing body w = ((body w).0, record ((body w).1) { calls = disconnect ∷ (body w).1.calls })

  -- The body, run with a meta client and the hosts that it lists.
  unfoldable pub with_hosts : {A : Type 0} → (List ServiceHost → M Failures A) → M Failures A
  with_hosts body = do
    request server.connected connect
    closing (request server.hosts_of list_hosts >>= body)

  module _ (spec : FailoverSpec) where
    unfoldable pub confirm : Name → FailureHost → M Failures (Unit {0})
    confirm name fh = do
      now ← time server
      if ltb (fh.creation_time + spec.failover_period) now && not (is_confirmed fh)
          then (do
            at ← time server
            found ← get_pod_and_pvcs server name
            put_host name (confirmed fh at found.1))
          else return tt

    abbrev pub confirm_or_add : Name → Name → Option FailureHost → M Failures (Unit {0})
    confirm_or_add name address (some fh) = confirm name fh
    confirm_or_add name address none = do
      now ← time server
      put_host name (new_failure_host address now)

    -- An entry for the host, or the confirmation of the one there is.
    unfoldable pub note_failure : Name → Name → M Failures (Unit {0})
    note_failure name address = do
      change make_hosts
      λ w. confirm_or_add name address (lookup (entries w.failure_hosts) name) w

    -- One turn of the loop over the hosts of the meta service.
    unfoldable pub detect_host : ServiceHost → M Failures (Unit {0})
    detect_host h =
        if is_offline h.status && h.port == spec.thrift_port
        then (let name = first_label h.address in
            if out_of_replicas (get_pod_ordinal name) spec.replicas
            then change (delete_key name)
            else note_failure name h.address)
        else return tt

    unfoldable pub detect_hosts : List ServiceHost → M Failures (Unit {0})
    detect_hosts [] = return tt
    detect_hosts (h ∷ hosts) = do detect_host h; detect_hosts hosts

    -- What `syncNebulaClusterStatus` does to the failure hosts.
    unfoldable pub sync_failure_hosts : M Failures (Unit {0})
    sync_failure_hosts =
        if not spec.auto_failover_enabled
          || not (spec.replicas == get_workload_replicas spec.workload_replicas)
        then return tt
        else with_hosts detect_hosts

    abbrev pub with_pod : Name → FailureHost → Table Name → Option FailedPod → Table Name
    with_pod name fh healthy none = healthy
    with_pod name fh healthy (some pod) =
        if is_pod_healthy server pod then put healthy fh.host name else healthy

    abbrev pub healthy_one : Table Name → Name → FailureHost → M Failures (Table Name)
    healthy_one healthy name fh = do
      pod ← find_pod server name
      return (with_pod name fh healthy pod)

    -- The map from the addresses of the failure hosts whose pods are healthy to those pods.
    unfoldable pub healthy_pods : Table Name → List Name → M Failures (Table Name)
    healthy_pods healthy [] = return healthy
    healthy_pods healthy (name ∷ names) = do
      more ← visit healthy (healthy_one healthy) name
      healthy_pods more names

    abbrev pub online_name : ServiceHost → List Name → Option Name → List Name
    online_name h rest none = rest
    online_name h rest (some name) =
        if is_online h.status && h.port == spec.thrift_port then name ∷ rest else rest

    unfoldable pub online_hosts : Table Name → List ServiceHost → List Name
    online_hosts healthy [] = []
    online_hosts healthy (h ∷ hosts) =
        online_name h (online_hosts healthy hosts) (lookup healthy h.address)

    abbrev pub recoverable : List Name → Bool × List Name
    recoverable names = (not (is_nil names), names)

    abbrev pub recoverable_hosts : Table Name → List ServiceHost → M Failures (Bool × List Name)
    recoverable_hosts healthy hosts = return (recoverable (online_hosts healthy hosts))

    abbrev pub recover_online : Table Name → M Failures (Bool × List Name)
    recover_online [] = return (false, [])
    recover_online (p ∷ healthy) = with_hosts (recoverable_hosts (p ∷ healthy))

    unfoldable pub should_recover_hosts : Option Hosts → M Failures (Bool × List Name)
    should_recover_hosts none = return (true, [])
    should_recover_hosts (some hosts) = do
      names ← range_hosts server
      healthy ← healthy_pods [] names
      recover_online healthy

    unfoldable pub should_recover : M Failures (Bool × List Name)
    should_recover w = should_recover_hosts w.failure_hosts w

    -- `Recovery` or `Failover`, as the code's branches choose.
    abbrev pub recover_or_fail_over :
        M Failures (Unit {0}) → Bool × List Name → M Failures (Unit {0})
    recover_or_fail_over fail_over (true, names) w = recovery names w
    recover_or_fail_over fail_over (false, names) w =
        (if is_auto_failovering (entries w.failure_hosts) then fail_over else return tt) w

    -- The block `if nc.IsAutoFailoverEnabled()` of the workload's synchronisation.
    unfoldable pub auto_failover : M Failures (Unit {0}) → M Failures (Unit {0})
    auto_failover fail_over =
        if spec.auto_failover_enabled
        then should_recover >>= recover_or_fail_over fail_over
        else return tt

    -- What a synchronisation of the workload does to the failure hosts, in its order.
    unfoldable pub reconcile_failures : M Failures (Unit {0}) → M Failures (Unit {0})
    reconcile_failures fail_over = do sync_failure_hosts; auto_failover fail_over
