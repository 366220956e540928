-- ===== src/Failover/Manager/Rebuilds.antt =====
-- pkg/controller/component/{graphd,metad,storaged}_failover.go: a call of `Failover` whose server is steady.
use nebula_operator.Common.{
  ◌+◌, ◌&&◌, Bool, true, false, Option, none, some, List, [], ◌∷◌, ◌≡◌, refl, sym, ap, ◌∙◌,
  if◌then◌else◌, arith, ltb,
}
use nebula_operator.Common.Effect.{
  M, Outcome, ok, err, panic, reconcile, not_found, job_failed, other, ◌>>=◌, return, fail, attempt,
}
use nebula_operator.Scheduler.PodName.{Name}
use nebula_operator.Failover.Hosts.{
  FailureHost, Hosts, range_hosts, lookup, put, FailoverCall, FailedPod, Claim, FailoverServer,
  Failures, entries, find_pod, get_pod_and_pvcs, visit, for_hosts, put_host, is_pod_pending,
  is_node_down, delete_pod, request, is_pod_terminating, is_pod_healthy, time, get_node,
  is_pod_condition_scheduled_true,
}
use nebula_operator.Failover.Manager.{
  Component, restarted, rebuilt, restart_found, restart_one, try_restart_pod, tolerate_found,
  tolerate_one, tolerate_all, tolerate_pods, rebuild_found, rebuild_one, delete_failure_pod_and_pvc,
  delete_claims, release_claims, delete_pending, check_found, check_one, check_pending_pod,
  failover, keep_restarted, minute, wait_for_ready,
}
use nebula_operator.Failover.Manager.Kept.{Kept, get_pod_and_pvcs-Kept}
use nebula_operator.Failover.Manager.Moves.{restart, rebuild}
use nebula_operator.Failover.Manager.Live.{
  Gives, Any, Steady, Turns, Live, bind-Live, return-Live, if-Live, request-Live, for_hosts-Live,
  put_host-Live, visit-Live, passes, turns,
}
use nebula_operator.Failover.Manager.Steps.{steps_left, steps_left-put}
use nebula_operator.Failover.Manager.Answered.{
  Found, Both, find_pod-Live, get_pod_and_pvcs-Live, done-Live, skip-Live, delete_claims-Live,
  release_claims-Live,
}

module _ (server : FailoverServer) (steady : Steady server) (h : Option Hosts) where
  restart_found-Live :
      (name : Name) (fh : FailureHost)
      → lookup (entries h) name ≡ some fh
      → fh.pod_restarted ≡ false
      → (o : Option FailedPod) → Found server o
      → Live h (restart_found server name fh o) Any
  unfolding restart_found
  restart_found-Live name fh x r none f = absurd f
  restart_found-Live name fh x r (some pod) f =
      if-Live h (is_pod_pending pod) (return tt)
        (request server.node (get_node pod.node_name) >>= keep_restarted server name fh) Any
        (λ _. skip-Live server steady h)
        (λ _.
          bind-Live h (request server.node (get_node pod.node_name)) Any
            (keep_restarted server name fh) Any
            (request-Live h server.node (get_node pod.node_name) Any steady.1)
            (λ conditions _.
              bind-Live h (request server.done (delete_pod name)) Any
                (λ _.
                  put_host name (restarted fh (is_node_down conditions)) >>= λ _. fail reconcile)
                Any (done-Live server steady h (delete_pod name))
                (λ _ _.
                  put_host-Live h name fh (restarted fh (is_node_down conditions)) x
                    (restart fh (is_node_down conditions) r))))

  restart_one-Live :
      (name : Name) (fh : FailureHost)
      → lookup (entries h) name ≡ some fh
      → Live h (restart_one server name fh) Any
  unfolding restart_one
  restart_one-Live name fh x =
      if-Live h fh.pod_restarted (return tt) (find_pod server name >>= restart_found server name fh)
        Any (λ _. skip-Live server steady h)
        (λ r.
          bind-Live h (find_pod server name) (Found server) (restart_found server name fh) Any
            (find_pod-Live server steady h name) (restart_found-Live name fh x r))

  -- No stuck pod is ready.
  abbrev Unready : Bool → Type 0
  Unready ready = ready ≡ false

  tolerate_found-Live :
      (o : Option FailedPod) → Found server o → Live h (tolerate_found server o) Unready
  unfolding tolerate_found
  tolerate_found-Live none f = absurd f
  tolerate_found-Live (some pod) f =
      if-Live h (is_pod_terminating pod) (fail reconcile) _ Unready
        (λ e. absurd (let d = f.0 in ground arith))
        (λ _.
          if-Live h (is_pod_healthy server pod) (return true) _ Unready
            (λ e. absurd (let d = f.2 in ground arith))
            (λ _.
              bind-Live h (time server) (λ now. ltb now (pod.created + minute) ≡ false) _ Unready
                (request-Live h (λ calls. ok (server.now calls)) FailoverCall.clock _ f.3)
                (λ now late.
                  if-Live h (ltb now (pod.created + minute)) (fail reconcile) (return false) Unready
                    (λ e. absurd (let d = late in ground arith))
                    (λ _. return-Live h false Unready refl))))

  tolerate_one-Live :
      (name : Name) (fh : FailureHost)
      → lookup (entries h) name ≡ some fh
      → Live h (tolerate_one server name fh) Unready
  unfolding tolerate_one
  tolerate_one-Live name fh x =
      if-Live h fh.pod_rebuilt (return false) (find_pod server name >>= tolerate_found server)
        Unready (λ _. return-Live h false Unready refl)
        (λ r.
          bind-Live h (find_pod server name) (Found server) (tolerate_found server) Unready
            (find_pod-Live server steady h name) tolerate_found-Live)

  abbrev Nil : List Name → Type 0
  Nil names = names ≡ []

  tolerate_all-Live : (names : List Name) → Live h (tolerate_all server names) Nil
  unfolding tolerate_all
  tolerate_all-Live [] = return-Live h [] Nil refl
  tolerate_all-Live (name ∷ names) =
      bind-Live h (visit false (tolerate_one server) name) Unready _ Nil
        (visit-Live h false (tolerate_one server) Unready refl tolerate_one-Live name)
        (λ ready no_ready.
          bind-Live h (tolerate_all server names) Nil _ Nil (tolerate_all-Live names)
            (λ rest none_left.
              return-Live h (if ready then name ∷ rest else rest) Nil (ground arith)))

  rebuild_found-Live :
      (c : Component) (name : Name) (fh : FailureHost)
      → lookup (entries h) name ≡ some fh
      → fh.pod_rebuilt ≡ false
      → (r : Option FailedPod × List Claim) → Both server r
      → Live h (rebuild_found server c name fh (ok r)) Any
  unfolding rebuild_found
  rebuild_found-Live c name fh x r (none, pvcs) b = absurd b.0
  rebuild_found-Live c name fh x r (some pod, pvcs) b =
      bind-Live h
        (if is_pod_terminating pod then return tt else request server.done (delete_pod name)) Any _
        Any
        (if-Live h (is_pod_terminating pod) (return tt) (request server.done (delete_pod name)) Any
          (λ _. skip-Live server steady h) (λ _. done-Live server steady h (delete_pod name)))
        (λ _ _.
          bind-Live h (delete_claims server fh pvcs) Any _ Any
            (delete_claims-Live server steady h fh pvcs)
            (λ _ _.
              bind-Live h (time server) Any _ Any
                (request-Live h (λ calls. ok (server.now calls)) FailoverCall.clock Any
                  (λ calls. tt))
                (λ now _. put_host-Live h name fh (rebuilt fh now) x (rebuild fh now r))))

  -- A run that keeps the hosts takes none a step further.
  attempt-Live :
      {A : Type 0} (m : M Failures A) (Q : A → Type 0)
      → Kept m
      → Live h m Q
      → Live h (attempt m) (Gives Q)
  unfolding Live Kept
  attempt-Live {A} m Q k l w e = go (m w) (k w ∙ e) (l w e)
    where
      go :
          (r : Outcome A × Failures)
          → r.1.failure_hosts ≡ h
          → Turns h Q r
          → Turns h (Gives Q) (attempt (λ (_ : Failures). r) w)
      go (ok a, u) d (passes _ _ _ q) = passes (ok a) u d q
      go (err reconcile, u) d (turns hosts n fh fh' _ a b c f) =
          let left : steps_left (put hosts n fh') ≡ steps_left hosts =
            ap (λ (o : Option Hosts). steps_left (entries o)) (sym f ∙ d ∙ a) in
          absurd (omega (arith, left, steps_left-put hosts n fh fh' b c))
      go (err not_found, u) d x = elim x [ ]
      go (err job_failed, u) d x = elim x [ ]
      go (err (other _), u) d x = elim x [ ]
      go (panic, u) d x = elim x [ ]

  rebuild_one-Live :
      (c : Component) (name : Name) (fh : FailureHost)
      → lookup (entries h) name ≡ some fh
      → Live h (rebuild_one server c name fh) Any
  unfolding rebuild_one
  rebuild_one-Live c name fh x =
      if-Live h fh.pod_rebuilt (return tt)
        (attempt (get_pod_and_pvcs server name) >>= rebuild_found server c name fh) Any
        (λ _. skip-Live server steady h)
        (λ r.
          bind-Live h (attempt (get_pod_and_pvcs server name)) (Gives (Both server))
            (rebuild_found server c name fh) Any
            (attempt-Live (get_pod_and_pvcs server name) (Both server)
              (get_pod_and_pvcs-Kept server name) (get_pod_and_pvcs-Live server steady h name))
            (found r))
    where
      found :
          fh.pod_rebuilt ≡ false
          → (o : Outcome (Option FailedPod × List Claim)) → Gives (Both server) o
          → Live h (rebuild_found server c name fh o) Any
      found r (ok a) b = rebuild_found-Live c name fh x r a b
      found r (err a) b = absurd b
      found r panic b = absurd b

  check_found-Live :
      (name : Name) (fh : FailureHost) (r : Option FailedPod × List Claim)
      → Both server r
      → Live h (check_found server name fh r) Any
  unfolding check_found delete_pending
  check_found-Live name fh (none, pvcs) b = absurd b.0
  check_found-Live name fh (some pod, pvcs) b =
      bind-Live h (release_claims server fh pvcs) Any (λ _. delete_pending server name pod) Any
        (release_claims-Live server steady h fh pvcs b.1)
        (λ _ _.
          if-Live h (is_pod_condition_scheduled_true pod.conditions && is_pod_pending pod) _
            (return tt) Any (λ e. absurd (let d = b.0.1 in ground arith))
            (λ _. skip-Live server steady h))

  check_one-Live :
      (name : Name) (fh : FailureHost)
      → lookup (entries h) name ≡ some fh
      → Live h (check_one server name fh) Any
  unfolding check_one
  check_one-Live name fh x =
      bind-Live h (get_pod_and_pvcs server name) (Both server) (check_found server name fh) Any
        (get_pod_and_pvcs-Live server steady h name) (check_found-Live name fh)

  phase-Live :
      {A : Type 0} (loop : List Name → M Failures A) (Q : A → Type 0)
      → ((names : List Name) → Live h (loop names) Q)
      → Live h (range_hosts server >>= loop) Q
  unfolding Live
  phase-Live loop Q k w e = k (server.range w.calls (entries w.failure_hosts)) w e

  pub failover-Live : (c : Component) → Live h (failover server c) Any
  unfolding failover try_restart_pod tolerate_pods delete_failure_pod_and_pvc check_pending_pod
  failover-Live c =
      bind-Live h (try_restart_pod server) Any _ Any
        (phase-Live (for_hosts (restart_one server)) Any
          (for_hosts-Live h (restart_one server) restart_one-Live))
        (λ _ _.
          bind-Live h (tolerate_pods server) Nil _ Any
            (phase-Live (tolerate_all server) Nil tolerate_all-Live)
            (λ ready none_ready.
              bind-Live h (wait_for_ready server ready) Any _ Any (waited ready none_ready) (λ _ _.
                bind-Live h (delete_failure_pod_and_pvc server c) Any _ Any
                  (phase-Live (for_hosts (rebuild_one server c)) Any
                    (for_hosts-Live h (rebuild_one server c) (rebuild_one-Live c)))
                  (λ _ _.
                    phase-Live (for_hosts (check_one server)) Any
                      (for_hosts-Live h (check_one server) check_one-Live)))))
    where
      waited : (names : List Name) → names ≡ [] → Live h (wait_for_ready server names) Any
      waited [] e = skip-Live server steady h
      waited (name ∷ names) e = absurd (ground arith)
