-- ===== src/Failover/Detect/Healthy.antt =====
-- pkg/controller/component/{graphd,metad,storaged}_cluster.go: the pods that `shouldRecover` names.
use nebula_operator.Common.{
  ◌&&◌, ◌==◌, Bool, true, false, Option, none, some, List, [], ◌∷◌, ◌≡◌, refl, sym, ap, ◌∙◌,
  if◌then◌else◌, arith, All, same, Bool-cases, inl, inr,
}
use mathlib.Core.Path.{subst}
use nebula_operator.Common.Effect.{
  Outcome, ok, err, panic, reconcile, not_found, job_failed, other, ◌>>=◌, return, attempt,
  >>=-eq-ok,
}
use nebula_operator.Scheduler.PodName.{Name}
use nebula_operator.Failover.Hosts.{
  FailureHost, Hosts, Table, range_hosts, lookup, put, FailoverCall, FailedPod, FailoverServer,
  Failures, entries, ServiceHost, find_pod, visit, on_entry, request, get_pod, connect, list_hosts,
  is_pod_healthy, unless_missing,
}
use nebula_operator.Failover.Hosts.Laws.{lookup-put}
use nebula_operator.Failover.Manager.Kept.{Kept, visit-Kept}
use nebula_operator.Failover.Detect.{
  FailoverSpec, is_online, with_pod, healthy_one, healthy_pods, online_name, online_hosts,
  recoverable_hosts, recover_online, should_recover_hosts, should_recover, with_hosts, closing,
}
use nebula_operator.Failover.Detect.Recover.{healthy_one-Kept}

-- The pod of a failure host, which the server answered to a request for that pod and which was healthy.
abbrev pub FoundHealthy : FailoverServer → Option Hosts → Name → Type 0
FoundHealthy server h name =
    ((fh : FailureHost) × (lookup (entries h) name ≡ some fh))
    × (calls : List FailoverCall) × (pod : FailedPod) × (server.pod (get_pod name ∷ calls) ≡ ok pod)
    × (is_pod_healthy server pod ≡ true)

abbrev AllValues : (Name → Type 0) → Table Name → Type 0
AllValues G table = (key name : Name) → lookup table key ≡ some name → G name

put-AllValues :
    (G : Name → Type 0) (table : Table Name) (key name : Name)
    → G name
    → AllValues G table
    → AllValues G (put table key name)
put-AllValues G table key name g all k n x = elim (Bool-cases (same key k)) [
  | inl e ↦ let y : name ≡ n = ground (arith, lookup-put table key k name) in subst G y g
  | inr e ↦ all k n (ground (arith, lookup-put table key k name))
]

find_pod-some :
    (server : FailoverServer) (name : Name) (pod : FailedPod) (w v : Failures)
    → find_pod server name w ≡ (ok (some pod), v)
    → server.pod (get_pod name ∷ w.calls) ≡ ok pod
unfolding find_pod
find_pod-some server name pod w v = go (server.pod (get_pod name ∷ w.calls))
  where
    go :
        (o : Outcome FailedPod)
        → (attempt (λ (u : Failures). (o, record u { calls = get_pod name ∷ u.calls }))
              >>= unless_missing server)
            w
          ≡ (ok (some pod), v)
        → o ≡ ok pod
    go (ok p) e = ground arith
    go (err not_found) e = absurd (ground arith)
    go (err reconcile) e = absurd (ground arith)
    go (err job_failed) e = absurd (ground arith)
    go (err (other n)) e = absurd (ground arith)
    go panic e = absurd (ground arith)

abbrev named : Outcome (Bool × List Name) × Failures → List Name
named (ok (b, names), w) = names
named (err e, w) = []
named (panic, w) = []

no_entry : (key name : Name) → ¬ (lookup [] key ≡ some name)
unfolding lookup
no_entry key name y = ground arith

module _ (server : FailoverServer) (spec : FailoverSpec) (h : Option Hosts) where
  with_pod_all :
      (name : Name) (fh : FailureHost) (healthy : Table Name) (o : Option FailedPod)
      → lookup (entries h) name ≡ some fh
      → ((pod : FailedPod)
          → o ≡ some pod
          → (calls : List FailoverCall) × (server.pod (get_pod name ∷ calls) ≡ ok pod))
      → AllValues (FoundHealthy server h) healthy
      → AllValues (FoundHealthy server h) (with_pod server spec name fh healthy o)
  with_pod_all name fh healthy none x k all = all
  with_pod_all name fh healthy (some pod) x k all = go (is_pod_healthy server pod) refl
    where
      go :
          (b : Bool)
          → is_pod_healthy server pod ≡ b
          → AllValues (FoundHealthy server h) (if b then put healthy fh.host name else healthy)
      go false e = all
      go true e =
          let (calls, a) = k pod refl in
          put-AllValues (FoundHealthy server h) healthy fh.host name ((fh, x), calls, pod, a, e) all

  visit_ok :
      (healthy more : Table Name) (name : Name) (w v : Failures)
      → w.failure_hosts ≡ h
      → visit healthy (healthy_one server spec healthy) name w ≡ (ok more, v)
      → AllValues (FoundHealthy server h) healthy
      → AllValues (FoundHealthy server h) more
  visit_ok healthy more name w v same_hosts r all =
      go (lookup (entries w.failure_hosts) name)
        (ap (λ (o : Option Hosts). lookup (entries o) name) (sym same_hosts)) r
    where
      go :
          (o : Option FailureHost)
          → lookup (entries h) name ≡ o
          → on_entry healthy (healthy_one server spec healthy name) o w ≡ (ok more, v)
          → AllValues (FoundHealthy server h) more
      go none x e = subst (AllValues (FoundHealthy server h)) (ground arith) all
      go (some fh) x e =
          let (o, u, found, rest) =
            >>=-eq-ok (find_pod server name)
              (λ pod. return (with_pod server spec name fh healthy pod)) w v more e in
          let same_table : with_pod server spec name fh healthy o ≡ more = ground arith in
          subst (AllValues (FoundHealthy server h)) same_table (
            with_pod_all name fh healthy o x
              (λ pod y.
                (w.calls, find_pod-some server name pod w u (found ∙ ap (λ z. (ok z, u)) y)))
              all)

  healthy_pods_ok :
      (healthy more : Table Name) (names : List Name) (w v : Failures)
      → w.failure_hosts ≡ h
      → healthy_pods server spec healthy names w ≡ (ok more, v)
      → AllValues (FoundHealthy server h) healthy
      → AllValues (FoundHealthy server h) more
  unfolding healthy_pods Kept
  healthy_pods_ok healthy more [] w v same_hosts r all =
      subst (AllValues (FoundHealthy server h)) (ground arith) all
  healthy_pods_ok healthy more (name ∷ names) w v same_hosts r all =
      let (table, u, e, k) =
        >>=-eq-ok (visit healthy (healthy_one server spec healthy) name)
          (λ t. healthy_pods server spec t names) w v more r in
      let kept : u.failure_hosts ≡ w.failure_hosts =
        ap (λ (p : Outcome (Table Name) × Failures). p.1.failure_hosts) (sym e)
        ∙ visit-Kept healthy (healthy_one server spec healthy)
            (healthy_one-Kept server healthy spec) name w in
      healthy_pods_ok table more names u v (kept ∙ same_hosts) k
        (visit_ok healthy table name w u same_hosts e all)

  with_host-All :
      (healthy : Table Name) (s : ServiceHost) (rest : List Name) (o : Option Name)
      → lookup healthy s.address ≡ o
      → AllValues (FoundHealthy server h) healthy
      → All (FoundHealthy server h) rest
      → All (FoundHealthy server h) (online_name server spec s rest o)
  with_host-All healthy s rest none x all k = k
  with_host-All healthy s rest (some name) x all k =
      go (is_online s.status && s.port == spec.thrift_port)
    where
      go : (b : Bool) → All (FoundHealthy server h) (if b then name ∷ rest else rest)
      go true = (all s.address name x, k)
      go false = k

  online_hosts-All :
      (healthy : Table Name) (hosts : List ServiceHost)
      → AllValues (FoundHealthy server h) healthy
      → All (FoundHealthy server h) (online_hosts server spec healthy hosts)
  unfolding online_hosts
  online_hosts-All healthy [] all = tt
  online_hosts-All healthy (s ∷ hosts) all =
      with_host-All healthy s (online_hosts server spec healthy hosts) (lookup healthy s.address)
        refl all (online_hosts-All healthy hosts all)

  recover_online_ok :
      (healthy : Table Name) (names : List Name) (w v : Failures)
      → recover_online server spec healthy w ≡ (ok (true, names), v)
      → AllValues (FoundHealthy server h) healthy
      → All (FoundHealthy server h) names
  unfolding with_hosts
  recover_online_ok [] names w v r all = absurd (ground arith)
  recover_online_ok (p ∷ healthy) names w v r all =
      let body = recoverable_hosts server spec (p ∷ healthy) in
      let (_, u, e, k) =
        >>=-eq-ok (request server.connected connect)
          (λ _. closing server (request server.hosts_of list_hosts >>= body)) w v (true, names) r in
      let inner : (request server.hosts_of list_hosts >>= body) u
          ≡ (ok (true, names), ((request server.hosts_of list_hosts >>= body) u).1) =
        (λ i. ((k i).0, ((request server.hosts_of list_hosts >>= body) u).1)) in
      let (hosts, x, _, last) =
        >>=-eq-ok (request server.hosts_of list_hosts) body u _ (true, names) inner in
      let same_names : online_hosts server spec (p ∷ healthy) hosts ≡ names = ap named last in
      subst (All (FoundHealthy server h)) same_names (online_hosts-All (p ∷ healthy) hosts all)

-- Each pod that `shouldRecover` names is the one of a failure host, and the API server answered it to a
-- request for that pod and it was healthy.
pub should_recover_ok :
    (server : FailoverServer) (spec : FailoverSpec) (names : List Name) (w v : Failures)
    → should_recover server spec w ≡ (ok (true, names), v)
    → All (FoundHealthy server w.failure_hosts) names
unfolding should_recover should_recover_hosts Kept lookup
should_recover_ok server spec names w v r = go (w.failure_hosts) r
  where
    go :
        (o : Option Hosts)
        → should_recover_hosts server spec o w ≡ (ok (true, names), v)
        → All (FoundHealthy server w.failure_hosts) names
    go none k = subst (All (FoundHealthy server w.failure_hosts)) (ap (named) k) tt
    go (some hosts) k =
        let (order, u, e, k₁) =
          >>=-eq-ok (range_hosts server)
            (λ ns. healthy_pods server spec [] ns >>= recover_online server spec) w v (true, names)
            k in
        let kept : u.failure_hosts ≡ w.failure_hosts =
          ap (λ (p : Outcome (List Name) × Failures). p.1.failure_hosts) (sym e) in
        let (table, x, e₂, k₂) =
          >>=-eq-ok (healthy_pods server spec [] order) (recover_online server spec) u v
            (true, names) k₁ in
        recover_online_ok server spec w.failure_hosts table names x v k₂ (
          healthy_pods_ok server spec w.failure_hosts [] table order u x kept e₂
            (λ key name y. absurd (no_entry key name y)))
