-- ===== src/Failover/Detect/Confirmed.antt =====
-- pkg/controller/component/{graphd,metad,storaged}_cluster.go: a failure host is confirmed only after the
-- failover period.
use nebula_operator.Common.{
  ℕ, ◌+◌, ◌<◌, ◌≤◌, not, ◌&&◌, ◌||◌, ◌==◌, Bool, true, false, Option, none, some, List, [], ◌∷◌,
  ◌≡◌, refl, if◌then◌else◌, arith, ltb,
}
use nebula_operator.Common.Effect.{ok, ◌>>=◌, return}
use nebula_operator.Scheduler.PodName.{Name}
use nebula_operator.Failover.Hosts.{
  FailureHost, Hosts, ServiceHost, lookup, FailoverCall, clock, FailoverServer, Failures, entries,
  change, put_host, get_pod_and_pvcs, time, get_pod_ordinal,
}
use nebula_operator.Failover.Manager.{Component, delete_key, failover}
use nebula_operator.Failover.Manager.Kept.{get_pod_and_pvcs-Kept, request-Kept}
use nebula_operator.Failover.Manager.Moves.{HostStep, restart, rebuild}
use nebula_operator.Failover.Detect.Recover.{should_recover-Kept}
use nebula_operator.Failover.Detect.Preserves.{
  AllHosts, Preserves, bind-Preserves, Kept-Preserves, return-Preserves, if-Preserves,
  put_host-Preserves, delete-Preserves, recovery-Preserves, failover-Preserves,
  with_hosts-Preserves,
}
use nebula_operator.Failover.Detect.{
  FailoverSpec, get_workload_replicas, confirmed, new_failure_host, is_confirmed, is_offline,
  out_of_replicas, first_label, make_hosts, confirm, confirm_or_add, note_failure, detect_host,
  detect_hosts, sync_failure_hosts, with_hosts, should_recover, auto_failover, recover_or_fail_over,
  is_auto_failovering, reconcile_failures,
}

-- A confirmed host was created more than the period before.
abbrev pub ConfirmedLate : ℕ → FailureHost → Type 0
ConfirmedLate period fh = (t : ℕ) → fh.confirmation_time ≡ some t → fh.creation_time + period < t

-- The clock does not go back.
abbrev pub Monotone : FailoverServer → Type 0
Monotone server =
    (call : FailoverCall) (calls : List FailoverCall) → server.now calls ≤ server.now (call ∷ calls)

step-ConfirmedLate :
    (period : ℕ) (fh fh' : FailureHost)
    → HostStep fh fh'
    → ConfirmedLate period fh
    → ConfirmedLate period fh'
step-ConfirmedLate period fh _ (restart _ down r) k = k
step-ConfirmedLate period fh _ (rebuild _ now r) k = k

module _ (server : FailoverServer) (spec : FailoverSpec) (monotone : Monotone server) where
  abbrev Late : FailureHost → Type 0
  Late = ConfirmedLate spec.failover_period

  -- What follows the reading of the clock for a host that is due.
  confirmed-Preserves :
      (name : Name) (fh : FailureHost) (at : ℕ)
      → fh.creation_time + spec.failover_period < at
      → Preserves Late
          (do found ← get_pod_and_pvcs server name; put_host name (confirmed fh at found.1))
  confirmed-Preserves name fh at l =
      bind-Preserves Late (get_pod_and_pvcs server name) _
        (Kept-Preserves Late _ (get_pod_and_pvcs-Kept server name))
        (λ found. put_host-Preserves Late name (confirmed fh at found.1) (λ t e. ground arith))

  confirm-Preserves :
      (name : Name) (fh : FailureHost) → Preserves Late (confirm server spec name fh)
  unfolding confirm Preserves
  confirm-Preserves name fh w i =
      go
        (ltb (fh.creation_time + spec.failover_period) (server.now (clock ∷ w.calls))
          && not (is_confirmed fh))
        refl
    where
      go :
          (b : Bool)
          → (ltb (fh.creation_time + spec.failover_period) (server.now (clock ∷ w.calls))
              && not (is_confirmed fh))
            ≡ b
          → AllHosts Late
              ((if b
                  then (do
                    at ← time server
                    found ← get_pod_and_pvcs server name
                    put_host name (confirmed fh at found.1))
                  else return tt)
                (record w { calls = clock ∷ w.calls })).1.failure_hosts
      go false e = i
      go true e =
          confirmed-Preserves name fh (server.now (clock ∷ clock ∷ w.calls))
            (ground (arith, monotone clock (clock ∷ w.calls)))
            (record w { calls = clock ∷ clock ∷ w.calls }) i

  confirm_or_add-Preserves :
      (name address : Name) (o : Option FailureHost)
      → Preserves Late (confirm_or_add server spec name address o)
  confirm_or_add-Preserves name address (some fh) = confirm-Preserves name fh
  confirm_or_add-Preserves name address none =
      bind-Preserves Late (time server) _
        (Kept-Preserves Late _ (request-Kept (λ calls. ok (server.now calls)) clock))
        (λ now.
          put_host-Preserves Late name (new_failure_host address now)
            (λ t e. absurd (ground arith)))

  note_failure-Preserves :
      (name address : Name) → Preserves Late (note_failure server spec name address)
  unfolding note_failure Preserves
  note_failure-Preserves name address w i =
      confirm_or_add-Preserves name address (lookup (entries (make_hosts w.failure_hosts)) name)
        (record w { failure_hosts = make_hosts w.failure_hosts }) (made w.failure_hosts i)
    where
      made : (o : Option Hosts) → AllHosts Late o → AllHosts Late (make_hosts o)
      made none j = j
      made (some hosts) j = j

  detect_host-Preserves : (h : ServiceHost) → Preserves Late (detect_host server spec h)
  unfolding detect_host
  detect_host-Preserves h =
      if-Preserves Late (is_offline h.status && h.port == spec.thrift_port) _ (return tt)
        (if-Preserves Late (out_of_replicas (get_pod_ordinal (first_label h.address)) spec.replicas)
          (change (delete_key (first_label h.address)))
          (note_failure server spec (first_label h.address) h.address)
          (delete-Preserves Late (first_label h.address))
          (note_failure-Preserves (first_label h.address) h.address))
        (return-Preserves Late)

  detect_hosts-Preserves :
      (hosts : List ServiceHost) → Preserves Late (detect_hosts server spec hosts)
  unfolding detect_hosts
  detect_hosts-Preserves [] = return-Preserves Late
  detect_hosts-Preserves (h ∷ hosts) =
      bind-Preserves Late (detect_host server spec h) _ (detect_host-Preserves h)
        (λ _. detect_hosts-Preserves hosts)

  sync-Preserves : Preserves Late (sync_failure_hosts server spec)
  unfolding sync_failure_hosts
  sync-Preserves =
      if-Preserves Late
        (not spec.auto_failover_enabled
          || not (spec.replicas == get_workload_replicas spec.workload_replicas))
        (return tt) (with_hosts server (detect_hosts server spec)) (return-Preserves Late)
        (with_hosts-Preserves Late server (detect_hosts server spec) detect_hosts-Preserves)

  choice-Preserves :
      (c : Component) (r : Bool × List Name)
      → Preserves Late (recover_or_fail_over server spec (failover server c) r)
  unfolding Preserves
  choice-Preserves c (true, names) w i = recovery-Preserves Late names w i
  choice-Preserves c (false, names) w i =
      if-Preserves Late (is_auto_failovering (entries w.failure_hosts)) (failover server c)
        (return tt) (failover-Preserves Late server c (step-ConfirmedLate spec.failover_period))
        (return-Preserves Late) w i

  auto_failover-Preserves :
      (c : Component) → Preserves Late (auto_failover server spec (failover server c))
  unfolding auto_failover
  auto_failover-Preserves c =
      if-Preserves Late spec.auto_failover_enabled _ (return tt)
        (bind-Preserves Late (should_recover server spec)
          (recover_or_fail_over server spec (failover server c))
          (Kept-Preserves Late (should_recover server spec) (should_recover-Kept server spec))
          (choice-Preserves c))
        (return-Preserves Late)

-- Where the clock does not go back, a reconciliation of a component keeps, whatever its outcome, that
-- each confirmed failure host was created more than the failover period before its confirmation.
pub reconcile-ConfirmedLate :
    (server : FailoverServer) (spec : FailoverSpec) (c : Component) (w : Failures)
    → Monotone server
    → AllHosts (ConfirmedLate spec.failover_period) w.failure_hosts
    → AllHosts
        (ConfirmedLate spec.failover_period)
        (reconcile_failures server spec (failover server c) w).1.failure_hosts
unfolding Preserves reconcile_failures
reconcile-ConfirmedLate server spec c w monotone =
    bind-Preserves (ConfirmedLate spec.failover_period) (sync_failure_hosts server spec) _
      (sync-Preserves server spec monotone) (λ _. auto_failover-Preserves server spec monotone c) w
