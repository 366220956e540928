-- ===== src/Failover/Manager/Done.antt =====
-- pkg/controller/component/{graphd,metad}_failover.go: what holds of the failure hosts once `Failover`
-- returns no error.
use nebula_operator.Common.{
  ◌||◌, Bool, true, false, Option, none, some, List, [], ◌∷◌, ◌≡◌, refl, sym, ap, ◌∙◌,
  if◌then◌else◌, arith, same, same_eq, Bool-cases, inl, inr,
}
use nebula_operator.Common.Effect.{
  M, Outcome, ok, err, panic, Error, reconcile, not_found, job_failed, other, ◌>>=◌, ◌>>◌,
  >>=-eq-ok, return, fail, crash, attempt,
}
use nebula_operator.Scheduler.PodName.{Name}
use nebula_operator.Failover.Hosts.{
  FailureHost, Hosts, lookup, FailoverCall, FailedPod, Claim, FailoverServer, Failures, entries,
  get_pod_and_pvcs, is_pod_terminating, request, delete_pod, time, visit, on_entry, for_hosts,
  put_host,
}
use nebula_operator.Failover.Manager.{
  Component, graphd, metad, storaged, rebuilt, try_restart_pod, tolerate_pods, rebuild_found,
  rebuild_one, delete_failure_pod_and_pvc, check_pending_pod, failover, wait_for_ready,
  delete_claims,
}
use nebula_operator.Failover.Manager.Moves.{
  Moves, stays, Safe, failover-Moves, visit-Safe, rebuild_one-Safe, try_restart_pod-Safe,
  tolerate_pods-Safe, wait_for_ready-Safe,
}

abbrev pub contains_name : List Name → Name → Bool
contains_name [] name = false
contains_name (n ∷ names) name = same n name || contains_name names name

-- `range` visits every key of the map.
abbrev pub RangesOverAll : FailoverServer → Type 0
RangesOverAll server =
    (calls : List FailoverCall) (hosts : Hosts) (name : Name) (fh : FailureHost)
    → lookup hosts name ≡ some fh
    → contains_name (server.range calls hosts) name ≡ true

-- A run that returns has kept the hosts that it started with.
pub Moves-ok :
    {A : Type 0} (h : Option Hosts) (a : A) (v : Failures) (r : Outcome A × Failures)
    → Moves h r
    → r ≡ (ok a, v)
    → v.failure_hosts ≡ h
Moves-ok h a v (ok b, w) (stays _ _ k) e =
    ap (λ (p : Outcome _ × Failures). p.1.failure_hosts) (sym e) ∙ k
Moves-ok h a v (err x, w) m e = absurd (ground arith)
Moves-ok h a v (panic, w) m e = absurd (ground arith)

module _ (h : Option Hosts) (body : Name → FailureHost → M Failures (Unit {0}))
    (safe : (name : Name) (fh : FailureHost)
      → lookup (entries h) name ≡ some fh
      → Safe h (body name fh))
    (P : FailureHost → Type 0)
    (gives : (name : Name) (fh : FailureHost) (w v : Failures)
      → body name fh w ≡ (ok tt, v)
      → P fh) where
  visit-gives :
      (name : Name) (fh : FailureHost) (w v : Failures)
      → w.failure_hosts ≡ h
      → lookup (entries h) name ≡ some fh
      → visit tt body name w ≡ (ok tt, v)
      → P fh
  visit-gives name fh w v e x =
      go (lookup (entries w.failure_hosts) name)
        (ap (λ (o : Option Hosts). lookup (entries o) name) e ∙ x)
    where
      go : (o : Option FailureHost) → o ≡ some fh → on_entry tt (body name) o w ≡ (ok tt, v) → P fh
      go none y r = absurd (ground arith)
      go (some f) y r = let z : f ≡ fh = ground arith in gives name fh w v (rw (sym z) r)

  -- After a loop that returns, what each turn gives holds of every host that was visited.
  pub for_hosts-gives :
      (names : List Name) (w v : Failures)
      → w.failure_hosts ≡ h
      → for_hosts body names w ≡ (ok tt, v)
      → (name : Name) (fh : FailureHost) → contains_name names name ≡ true
      → lookup (entries h) name ≡ some fh
      → P fh
  unfolding for_hosts Safe
  for_hosts-gives [] w v e r name fh c x = absurd (ground arith)
  for_hosts-gives (n ∷ names) w v e r name fh c x =
      let (_, u, here, rest) = >>=-eq-ok (visit tt body n) (λ _. for_hosts body names) w v tt r in
      let same_hosts = Moves-ok h tt u (visit tt body n w) (visit-Safe h tt body safe n w e) here in
      elim (Bool-cases (same n name)) [
        | inl y ↦ visit-gives n fh w u e (rw (same_eq n name y) x) here
        | inr y ↦ for_hosts-gives names u v same_hosts rest name fh (ground arith) x
      ]

-- A run that never returns without an error.
unfoldable pub Fails : M Failures (Unit {0}) → Type 0
Fails m = (w v : Failures) → ¬ (m w ≡ (ok tt, v))

bind-Fails :
    {A : Type 0} (m : M Failures A) (f : A → M Failures (Unit {0}))
    → ((a : A) → Fails (f a))
    → Fails (m >>= f)
unfolding Fails
bind-Fails m f k w v r = let (a, u, _, e) = >>=-eq-ok m f w v tt r in k a u v e

fail-Fails : (e : Error) → Fails (fail e)
unfolding Fails
fail-Fails e w v r = ground arith

crash-Fails : Fails crash
unfolding Fails
crash-Fails w v r = ground arith

module _ (server : FailoverServer) where
  -- A host that has still to be rebuilt is never passed over, but by the storage component.
  rebuild_found-Fails :
      (c : Component) (name : Name) (fh : FailureHost) (o : Outcome (Option FailedPod × List Claim))
      → ¬ (c ≡ storaged)
      → Fails (rebuild_found server c name fh o)
  unfolding rebuild_found
  rebuild_found-Fails c name fh (ok (some pod, pvcs)) n =
      bind-Fails
        (if is_pod_terminating pod then return tt else request server.done (delete_pod name)) _
        (λ _. bind-Fails (delete_claims server fh pvcs) _ (λ _.
          bind-Fails (time server) _
            (λ now. bind-Fails (put_host name (rebuilt fh now)) _ (λ _. fail-Fails reconcile))))
  rebuild_found-Fails graphd name fh (ok (none, pvcs)) n = fail-Fails (other 0)
  rebuild_found-Fails metad name fh (ok (none, pvcs)) n = fail-Fails (other 0)
  rebuild_found-Fails storaged name fh (ok (none, pvcs)) n = absurd (n refl)
  rebuild_found-Fails graphd name fh (err not_found) n = fail-Fails not_found
  rebuild_found-Fails metad name fh (err not_found) n = fail-Fails not_found
  rebuild_found-Fails storaged name fh (err not_found) n = absurd (n refl)
  rebuild_found-Fails c name fh (err reconcile) n = fail-Fails reconcile
  rebuild_found-Fails c name fh (err job_failed) n = fail-Fails job_failed
  rebuild_found-Fails c name fh (err (other k)) n = fail-Fails (other k)
  rebuild_found-Fails c name fh panic n = crash-Fails

  rebuild_one-gives :
      (c : Component)
      → ¬ (c ≡ storaged)
      → (name : Name) (fh : FailureHost) (w v : Failures)
      → rebuild_one server c name fh w ≡ (ok tt, v)
      → fh.pod_rebuilt ≡ true
  unfolding rebuild_one Fails
  rebuild_one-gives c n name fh w v = go fh.pod_rebuilt refl
    where
      go :
          (b : Bool)
          → fh.pod_rebuilt ≡ b
          → (if b
                then return tt
                else attempt (get_pod_and_pvcs server name) >>= rebuild_found server c name fh)
              w
            ≡ (ok tt, v)
          → fh.pod_rebuilt ≡ true
      go true y r = y
      go false y r = absurd (
          bind-Fails (attempt (get_pod_and_pvcs server name)) (rebuild_found server c name fh)
            (λ o. rebuild_found-Fails c name fh o n) w v r)

-- Where `Failover` of the graph or the meta component returns no error, the failure hosts are the ones
-- it started with, and the pod of every one of them has been rebuilt. It needs that `range` visits every
-- key of the map.
pub failover-rebuilt :
    (server : FailoverServer) (c : Component) (w v : Failures)
    → RangesOverAll server
    → ¬ (c ≡ storaged)
    → failover server c w ≡ (ok tt, v)
    → (v.failure_hosts ≡ w.failure_hosts)
      × ((name : Name) (fh : FailureHost)
          → lookup (entries v.failure_hosts) name ≡ some fh
          → fh.pod_rebuilt ≡ true)
unfolding failover delete_failure_pod_and_pvc Safe
failover-rebuilt server c w v all n r =
    let h = w.failure_hosts in
    let (_, u1, e1, r1) = >>=-eq-ok (try_restart_pod server) _ w v tt r in
    let k1 =
      Moves-ok h tt u1 (try_restart_pod server w) (try_restart_pod-Safe h server w refl) e1 in
    let (ready, u2, e2, r2) =
      >>=-eq-ok (tolerate_pods server)
        (λ ready_pods.
          wait_for_ready server ready_pods
          >> (delete_failure_pod_and_pvc server c >> check_pending_pod server))
        u1 v tt r1 in
    let k2 = Moves-ok h ready u2 (tolerate_pods server u1) (tolerate_pods-Safe h server u1 k1) e2 in
    let (_, u3, e3, r3) =
      >>=-eq-ok (wait_for_ready server ready)
        (λ _. delete_failure_pod_and_pvc server c >> check_pending_pod server) u2 v tt r2 in
    let k3 =
      Moves-ok h tt u3 (wait_for_ready server ready u2) (wait_for_ready-Safe h server ready u2 k2)
        e3 in
    let (_, u4, e4, _) =
      >>=-eq-ok (delete_failure_pod_and_pvc server c) (λ _. check_pending_pod server) u3 v tt r3 in
    let kept = Moves-ok h tt v (failover server c w) (failover-Moves server c w) r in
    (
      kept,
      λ name fh x.
          let in_h : lookup (entries h) name ≡ some fh =
            ap (λ (o : Option Hosts). lookup (entries o) name) (sym kept) ∙ x in
          let in_u : lookup (entries u3.failure_hosts) name ≡ some fh =
            ap (λ (o : Option Hosts). lookup (entries o) name) k3 ∙ in_h in
          for_hosts-gives h (rebuild_one server c) (rebuild_one-Safe h server c)
            (λ f. f.pod_rebuilt ≡ true) (rebuild_one-gives server c n)
            (server.range u3.calls (entries u3.failure_hosts)) u3 u4 k3 e4 name fh
            (all u3.calls (entries u3.failure_hosts) name fh in_u) in_h,
    )
