-- ===== src/Failover/Manager.antt =====
-- pkg/controller/component/{graphd,metad,storaged}_failover.go. The three files have the same text
-- but for the component's name, for a pod that is missing when it is to be rebuilt, and for the
-- balancing of the spaces that the storage component adds.
pub mod Kept
pub mod Moves
pub mod Live
pub mod Steps
pub mod Answered
pub mod Rebuilds
pub mod Done
pub mod Ends
pub mod Missing
use nebula_operator.Common.{
  ℕ, ◌+◌, Bool, true, false, not, ◌&&◌, Option, none, some, List, [], ◌∷◌, contains, if◌then◌else◌,
  ltb,
}
use nebula_operator.Common.Effect.{
  M, Outcome, ok, err, panic, Error, not_found, reconcile, job_failed, other, ◌>>=◌, ◌>>◌, return,
  fail, crash, attempt,
}
use nebula_operator.Scheduler.PodName.{Name}
use nebula_operator.Condition.Status.{Condition}
use nebula_operator.Failover.Hosts.{
  FailureHost, Hosts, delete, FailedPod, Claim, delete_pod, get_node, delete_pvc, update_finalizer,
  FailoverServer, Failures, request, change, put_host, is_pod_pending, is_pod_terminating,
  is_pod_condition_scheduled_true, is_node_down, is_pod_healthy, time, find_pod, get_pod_and_pvcs,
  range_hosts, visit, for_hosts,
}

pub data Component : Type 0 where
  graphd metad storaged : Component

-- `RestartTolerancePeriod`, and the minute that a pending pod is left.
abbrev pub minute : ℕ
minute = 60000000000

abbrev pub delete_key : Name → Option Hosts → Option Hosts
delete_key name none = none
delete_key name (some hosts) = some (delete hosts name)

-- `Recovery`
unfoldable pub recovery : List Name → M Failures (Unit {0})
recovery [] = return tt
recovery (name ∷ names) = do change (delete_key name); recovery names

abbrev pub restarted : FailureHost → Bool → FailureHost
restarted fh down = record fh {
  node_down = if down then true else fh.node_down;
  pod_restarted = true;
}

abbrev pub rebuilt : FailureHost → ℕ → FailureHost
rebuilt fh now = record fh { pod_rebuilt = true; deletion_time = some now }

abbrev pub is_nil : List Name → Bool
is_nil [] = true
is_nil (name ∷ names) = false

module _ (server : FailoverServer) where
  -- The claims of the set that are not being deleted.
  unfoldable pub delete_claims : FailureHost → List Claim → M Failures (Unit {0})
  delete_claims fh [] = return tt
  delete_claims fh (pvc ∷ pvcs) = do
    if contains fh.pvc_set pvc.uid && not pvc.deleting
        then request server.done (delete_pvc pvc.uid)
        else return tt
    delete_claims fh pvcs

  abbrev pub keep_restarted : Name → FailureHost → List Condition → M Failures (Unit {0})
  keep_restarted name fh conditions = do
    request server.done (delete_pod name)
    put_host name (restarted fh (is_node_down conditions))
    fail reconcile

  unfoldable pub restart_found : Name → FailureHost → Option FailedPod → M Failures (Unit {0})
  restart_found name fh none = return tt
  restart_found name fh (some pod) =
      if is_pod_pending pod
      then return tt
      else request server.node (get_node pod.node_name) >>= keep_restarted name fh

  unfoldable pub restart_one : Name → FailureHost → M Failures (Unit {0})
  restart_one name fh =
      if fh.pod_restarted then return tt else find_pod server name >>= restart_found name fh

  unfoldable pub try_restart_pod : M Failures (Unit {0})
  try_restart_pod = range_hosts server >>= for_hosts restart_one

  -- Whether a pod that was found is ready again. One that was not found is a nil dereference.
  unfoldable pub tolerate_found : Option FailedPod → M Failures Bool
  tolerate_found none = crash
  tolerate_found (some pod) =
      if is_pod_terminating pod
      then fail reconcile
      else if is_pod_healthy server pod
      then return true
      else (do
        now ← time server
        if ltb now (pod.created + minute) then fail reconcile else return false)

  unfoldable pub tolerate_one : Name → FailureHost → M Failures Bool
  tolerate_one name fh =
      if fh.pod_rebuilt then return false else find_pod server name >>= tolerate_found

  unfoldable pub tolerate_all : List Name → M Failures (List Name)
  tolerate_all [] = return []
  tolerate_all (name ∷ names) = do
    ready ← visit false tolerate_one name
    rest ← tolerate_all names
    return (if ready then name ∷ rest else rest)

  unfoldable pub tolerate_pods : M Failures (List Name)
  tolerate_pods = range_hosts server >>= tolerate_all

  -- A pod that is missing is passed over by the storage component, and is an error of the others.
  abbrev pub on_missing : Component → Error → M Failures (Unit {0})
  on_missing storaged e = return tt
  on_missing graphd e = fail e
  on_missing metad e = fail e

  unfoldable pub rebuild_found :
      Component
      → Name
      → FailureHost
      → Outcome (Option FailedPod × List Claim)
      → M Failures (Unit {0})
  rebuild_found c name fh (ok (some pod, pvcs)) = do
    if is_pod_terminating pod then return tt else request server.done (delete_pod name)
    delete_claims fh pvcs
    now ← time server
    put_host name (rebuilt fh now)
    fail reconcile
  rebuild_found c name fh (ok (none, pvcs)) = on_missing c (other 0)
  rebuild_found c name fh (err not_found) = on_missing c not_found
  rebuild_found c name fh (err reconcile) = fail reconcile
  rebuild_found c name fh (err job_failed) = fail job_failed
  rebuild_found c name fh (err (other n)) = fail (other n)
  rebuild_found c name fh panic = crash

  unfoldable pub rebuild_one : Component → Name → FailureHost → M Failures (Unit {0})
  rebuild_one c name fh =
      if fh.pod_rebuilt
      then return tt
      else attempt (get_pod_and_pvcs server name) >>= rebuild_found c name fh

  unfoldable pub delete_failure_pod_and_pvc : Component → M Failures (Unit {0})
  delete_failure_pod_and_pvc c = range_hosts server >>= for_hosts (rebuild_one c)

  abbrev pub some_finalizer : List ℕ → Bool
  some_finalizer [] = false
  some_finalizer (f ∷ fs) = true

  -- The finalizer of a claim that is being deleted is removed.
  unfoldable pub release_claims : FailureHost → List Claim → M Failures (Unit {0})
  release_claims fh [] = return tt
  release_claims fh (pvc ∷ pvcs) = do
    if contains fh.pvc_set pvc.uid && (pvc.deleting && some_finalizer pvc.finalizers)
        then (do request server.done (update_finalizer pvc.uid); fail reconcile)
        else return tt
    release_claims fh pvcs

  unfoldable pub delete_pending : Name → FailedPod → M Failures (Unit {0})
  delete_pending name pod =
      if is_pod_condition_scheduled_true pod.conditions && is_pod_pending pod
      then (do
        now ← time server
        if ltb (pod.created + minute) now
            then (do request server.done (delete_pod name); fail reconcile)
            else return tt)
      else return tt

  unfoldable pub check_found :
      Name → FailureHost → Option FailedPod × List Claim → M Failures (Unit {0})
  check_found name fh (none, pvcs) = fail (other 0)
  check_found name fh (some pod, pvcs) = do release_claims fh pvcs; delete_pending name pod

  unfoldable pub check_one : Name → FailureHost → M Failures (Unit {0})
  check_one name fh = get_pod_and_pvcs server name >>= check_found name fh

  unfoldable pub check_pending_pod : M Failures (Unit {0})
  check_pending_pod = range_hosts server >>= for_hosts check_one

  abbrev pub wait_for_ready : List Name → M Failures (Unit {0})
  wait_for_ready ready_pods = if is_nil ready_pods then return tt else fail reconcile

  -- `Failover`; for the storage component, what comes before its meta client.
  unfoldable pub failover : Component → M Failures (Unit {0})
  failover c = do
    try_restart_pod
    ready_pods ← tolerate_pods
    wait_for_ready ready_pods
    delete_failure_pod_and_pvc c
    check_pending_pod
