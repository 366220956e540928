-- ===== src/Failover/Manager/Moves.antt =====
-- pkg/controller/component/{graphd,metad,storaged}_failover.go: what one call of `Failover` may do to
-- the failure hosts, as a step relation.
use nebula_operator.Common.{
  ℕ, Bool, true, false, Option, none, some, List, [], ◌∷◌, ◌≡◌, refl, sym, ap, ◌∙◌, if◌then◌else◌,
  arith,
}
use nebula_operator.Common.Effect.{
  M, Outcome, ok, err, panic, Error, reconcile, not_found, job_failed, other, ◌>>=◌, then_run,
  return, fail, crash, attempt,
}
use nebula_operator.Scheduler.PodName.{Name}
use nebula_operator.Failover.Hosts.{
  FailureHost, Hosts, range_hosts, lookup, put, FailoverCall, FailedPod, Claim, FailoverServer,
  Failures, entries, find_pod, get_pod_and_pvcs, visit, on_entry, for_hosts, put_host,
  is_pod_pending, is_node_down, delete_pod, request, is_pod_terminating, time, get_node,
}
use nebula_operator.Failover.Manager.{
  Component, graphd, metad, storaged, restarted, rebuilt, restart_found, restart_one,
  try_restart_pod, tolerate_pods, rebuild_found, rebuild_one, delete_failure_pod_and_pvc,
  delete_claims, check_one, check_pending_pod, failover, keep_restarted, wait_for_ready, on_missing,
}
use nebula_operator.Failover.Manager.Kept.{
  range_hosts-Kept, Kept, constant-Kept, request-Kept, find_pod-Kept, get_pod_and_pvcs-Kept,
  attempt-Kept, delete_claims-Kept, tolerate_all-Kept, check_one-Kept, for_hosts-Kept,
}

-- A failure host's pod is restarted once, and rebuilt once.
pub data HostStep : FailureHost → FailureHost → Type 0 where
  restart :
      (fh : FailureHost) (down : Bool) → fh.pod_restarted ≡ false → HostStep fh (restarted fh down)
  rebuild : (fh : FailureHost) (now : ℕ) → fh.pod_rebuilt ≡ false → HostStep fh (rebuilt fh now)

-- What a run leaves: the same hosts, or a `ReconcileError` and one host a step further.
pub data Moves {A : Type 0} (h : Option Hosts) : Outcome A × Failures → Type 0 where
  stays : (o : Outcome A) (w : Failures) → w.failure_hosts ≡ h → Moves h (o, w)
  moves :
      (hosts : Hosts) (name : Name) (fh fh' : FailureHost) (w : Failures)
      → h ≡ some hosts
      → lookup hosts name ≡ some fh
      → HostStep fh fh'
      → w.failure_hosts ≡ some (put hosts name fh')
      → Moves h (err reconcile, w)

module _ (h : Option Hosts) where
  -- From these hosts, a run moves as `Moves` says.
  unfoldable pub Safe : {A : Type 0} → M Failures A → Type 0
  Safe m = (w : Failures) → w.failure_hosts ≡ h → Moves h (m w)

  pub bind-Safe :
      {A B : Type 0} (m : M Failures A) (f : A → M Failures B)
      → Safe m
      → ((a : A) → Safe (f a))
      → Safe (m >>= f)
  unfolding Safe
  bind-Safe {A} {B} m f sm sf w e = go (m w) (sm w e)
    where
      go : (r : Outcome A × Failures) → Moves h r → Moves h (then_run r f)
      go (ok a, u) (stays _ _ k) = sf a u k
      go (err x, u) (stays _ _ k) = stays (err x) u k
      go (panic, u) (stays _ _ k) = stays panic u k
      go (err reconcile, u) (moves hosts n fh fh' _ a b c d) = moves hosts n fh fh' u a b c d

  pub Kept-Safe : {A : Type 0} (m : M Failures A) → Kept m → Safe m
  unfolding Kept Safe
  Kept-Safe {A} m k w e = go (m w) (k w ∙ e)
    where
      go : (r : Outcome A × Failures) → r.1.failure_hosts ≡ h → Moves h r
      go (o, u) d = stays o u d

  pub if-Safe :
      {A : Type 0} (b : Bool) (m k : M Failures A)
      → (b ≡ true → Safe m)
      → (b ≡ false → Safe k)
      → Safe (if b then m else k)
  unfolding Safe
  if-Safe true m k sm sk = sm refl
  if-Safe false m k sm sk = sk refl

  -- The host that a loop visits is looked up in the hosts it started from.
  pub visit-Safe :
      {A : Type 0} (d : A) (body : Name → FailureHost → M Failures A)
      → ((name : Name) (fh : FailureHost) → lookup (entries h) name ≡ some fh → Safe (body name fh))
      → (name : Name) → Safe (visit d body name)
  unfolding Safe
  visit-Safe d body k name w e =
      go (lookup (entries w.failure_hosts) name)
        (ap (λ (o : Option Hosts). lookup (entries o) name) (sym e))
    where
      go :
          (o : Option FailureHost)
          → lookup (entries h) name ≡ o
          → Moves h (on_entry d (body name) o w)
      go none _ = stays _ w e
      go (some fh) x = k name fh x w e

  pub for_hosts-Safe :
      (body : Name → FailureHost → M Failures (Unit {0}))
      → ((name : Name) (fh : FailureHost) → lookup (entries h) name ≡ some fh → Safe (body name fh))
      → (names : List Name) → Safe (for_hosts body names)
  unfolding for_hosts
  for_hosts-Safe body k [] = Kept-Safe (return tt) (constant-Kept (ok tt))
  for_hosts-Safe body k (name ∷ names) =
      bind-Safe (visit tt body name) _ (visit-Safe tt body k name)
        (λ _. for_hosts-Safe body k names)

  -- The record of a step, with the error that follows it.
  pub put_host-Safe :
      (name : Name) (fh fh' : FailureHost)
      → lookup (entries h) name ≡ some fh
      → HostStep fh fh'
      → Safe {A = Unit {0}} (put_host name fh' >>= λ _. fail reconcile)
  unfolding Safe lookup
  put_host-Safe name fh fh' x s w e = go (w.failure_hosts) e
    where
      go :
          (o : Option Hosts)
          → o ≡ h
          → Moves {A = Unit {0}} h (
              (put_host name fh' >>= λ (_ : Unit {0}). fail reconcile)
                (record w { failure_hosts = o }))
      go none d = absurd (
          let y : none ≡ some fh = ap (λ (o : Option Hosts). lookup (entries o) name) d ∙ x in
          ground arith)
      go (some hosts) d =
          moves hosts name fh fh' _ (sym d)
            (ap (λ (o : Option Hosts). lookup (entries o) name) d ∙ x) s refl

  module _ (server : FailoverServer) where
    restart_found-Safe :
        (name : Name) (fh : FailureHost)
        → lookup (entries h) name ≡ some fh
        → fh.pod_restarted ≡ false
        → (o : Option FailedPod) → Safe (restart_found server name fh o)
    unfolding restart_found
    restart_found-Safe name fh x r none = Kept-Safe (return tt) (constant-Kept (ok tt))
    restart_found-Safe name fh x r (some pod) =
        if-Safe (is_pod_pending pod) (return tt)
          (request server.node (get_node pod.node_name) >>= keep_restarted server name fh)
          (λ _. Kept-Safe (return tt) (constant-Kept (ok tt)))
          (λ _.
            bind-Safe (request server.node (get_node pod.node_name)) (keep_restarted server name fh)
              (Kept-Safe _ (request-Kept server.node (get_node pod.node_name)))
              (λ conditions.
                bind-Safe (request server.done (delete_pod name))
                  (λ _.
                    put_host name (restarted fh (is_node_down conditions)) >>= λ _. fail reconcile)
                  (Kept-Safe _ (request-Kept server.done (delete_pod name)))
                  (λ _.
                    put_host-Safe name fh (restarted fh (is_node_down conditions)) x
                      (restart fh (is_node_down conditions) r))))

    restart_one-Safe :
        (name : Name) (fh : FailureHost)
        → lookup (entries h) name ≡ some fh
        → Safe (restart_one server name fh)
    unfolding restart_one
    restart_one-Safe name fh x =
        if-Safe fh.pod_restarted (return tt) (find_pod server name >>= restart_found server name fh)
          (λ _. Kept-Safe (return tt) (constant-Kept (ok tt)))
          (λ r.
            bind-Safe (find_pod server name) (restart_found server name fh)
              (Kept-Safe _ (find_pod-Kept server name)) (restart_found-Safe name fh x r))

    missing-Safe : (c : Component) (e : Error) → Safe (on_missing server c e)
    missing-Safe graphd e = Kept-Safe (fail e) (constant-Kept (err e))
    missing-Safe metad e = Kept-Safe (fail e) (constant-Kept (err e))
    missing-Safe storaged e = Kept-Safe (return tt) (constant-Kept (ok tt))

    rebuild_found-Safe :
        (c : Component) (name : Name) (fh : FailureHost)
        → lookup (entries h) name ≡ some fh
        → fh.pod_rebuilt ≡ false
        → (o : Outcome (Option FailedPod × List Claim)) → Safe (rebuild_found server c name fh o)
    unfolding rebuild_found
    rebuild_found-Safe c name fh x r (ok (some pod, pvcs)) =
        bind-Safe
          (if is_pod_terminating pod then return tt else request server.done (delete_pod name)) _
          (if-Safe (is_pod_terminating pod) (return tt) (request server.done (delete_pod name))
            (λ _. Kept-Safe (return tt) (constant-Kept (ok tt)))
            (λ _. Kept-Safe _ (request-Kept server.done (delete_pod name))))
          (λ _.
            bind-Safe (delete_claims server fh pvcs) _
              (Kept-Safe _ (delete_claims-Kept server fh pvcs))
              (λ _.
                bind-Safe (time server) _
                  (Kept-Safe _ (request-Kept (λ calls. ok (server.now calls)) FailoverCall.clock))
                  (λ now. put_host-Safe name fh (rebuilt fh now) x (rebuild fh now r))))
    rebuild_found-Safe c name fh x r (ok (none, pvcs)) = missing-Safe c (other 0)
    rebuild_found-Safe c name fh x r (err not_found) = missing-Safe c not_found
    rebuild_found-Safe c name fh x r (err reconcile) =
        Kept-Safe (fail reconcile) (constant-Kept (err reconcile))
    rebuild_found-Safe c name fh x r (err job_failed) =
        Kept-Safe (fail job_failed) (constant-Kept (err job_failed))
    rebuild_found-Safe c name fh x r (err (other n)) =
        Kept-Safe (fail (other n)) (constant-Kept (err (other n)))
    rebuild_found-Safe c name fh x r panic = Kept-Safe crash (constant-Kept panic)

    pub rebuild_one-Safe :
        (c : Component) (name : Name) (fh : FailureHost)
        → lookup (entries h) name ≡ some fh
        → Safe (rebuild_one server c name fh)
    unfolding rebuild_one
    rebuild_one-Safe c name fh x =
        if-Safe fh.pod_rebuilt (return tt)
          (attempt (get_pod_and_pvcs server name) >>= rebuild_found server c name fh)
          (λ _. Kept-Safe (return tt) (constant-Kept (ok tt)))
          (λ r.
            bind-Safe (attempt (get_pod_and_pvcs server name)) (rebuild_found server c name fh)
              (Kept-Safe _ (attempt-Kept _ (get_pod_and_pvcs-Kept server name)))
              (rebuild_found-Safe c name fh x r))

    -- A phase: a loop over the hosts in the server's order.
    pub phase-Safe :
        {A : Type 0} (loop : List Name → M Failures A)
        → ((names : List Name) → Safe (loop names))
        → Safe (range_hosts server >>= loop)
    phase-Safe loop k =
        bind-Safe (range_hosts server) loop (Kept-Safe _ (range_hosts-Kept server)) k

    pub try_restart_pod-Safe : Safe (try_restart_pod server)
    unfolding try_restart_pod
    try_restart_pod-Safe = phase-Safe _ (for_hosts-Safe (restart_one server) restart_one-Safe)

    pub tolerate_pods-Safe : Safe (tolerate_pods server)
    unfolding tolerate_pods
    tolerate_pods-Safe = phase-Safe _ (λ names. Kept-Safe _ (tolerate_all-Kept server names))

    pub wait_for_ready-Safe : (names : List Name) → Safe (wait_for_ready server names)
    wait_for_ready-Safe [] = Kept-Safe (return tt) (constant-Kept (ok tt))
    wait_for_ready-Safe (name ∷ names) = Kept-Safe (fail reconcile) (constant-Kept (err reconcile))

    delete_phase-Safe : (c : Component) → Safe (delete_failure_pod_and_pvc server c)
    unfolding delete_failure_pod_and_pvc
    delete_phase-Safe c = phase-Safe _ (for_hosts-Safe (rebuild_one server c) (rebuild_one-Safe c))

    check_phase-Safe : Safe (check_pending_pod server)
    unfolding check_pending_pod
    check_phase-Safe =
        phase-Safe _
          (λ names. Kept-Safe _ (for_hosts-Kept (check_one server) (check_one-Kept server) names))

    failover-Safe : (c : Component) → Safe (failover server c)
    unfolding failover
    failover-Safe c = bind-Safe (try_restart_pod server) _ try_restart_pod-Safe (λ _.
        bind-Safe (tolerate_pods server) _ tolerate_pods-Safe (λ ready.
          bind-Safe (wait_for_ready server ready) _ (wait_for_ready-Safe ready) (λ _.
            bind-Safe (delete_failure_pod_and_pvc server c) _ (delete_phase-Safe c)
              (λ _. check_phase-Safe))))

-- A call of `Failover` either leaves the failure hosts as they are, or returns a `ReconcileError` and
-- takes exactly one host one step further: it is restarted, or it is rebuilt.
pub failover-Moves :
    (server : FailoverServer) (c : Component) (w : Failures)
    → Moves w.failure_hosts (failover server c w)
unfolding Safe
failover-Moves server c w = failover-Safe w.failure_hosts server c w refl
