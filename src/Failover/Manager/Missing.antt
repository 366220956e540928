-- ===== src/Failover/Manager/Missing.antt =====
-- pkg/controller/component/{graphd,metad,storaged}_failover.go: a failure host whose pod is missing.
use nebula_operator.Common.{
  Bool, true, false, Option, none, some, List, [], ◌∷◌, ◌≡◌, refl, ap, ◌∙◌, if◌then◌else◌, arith,
  same, same_eq, Bool-cases, ◌⊎◌, inl, inr,
}
use nebula_operator.Common.Effect.{
  M, Outcome, ok, err, panic, not_found, ◌>>=◌, then_run, return, attempt,
}
use nebula_operator.Scheduler.PodName.{Name}
use nebula_operator.Failover.Hosts.{
  FailureHost, Hosts, FailedPod, lookup, FailoverCall, FailoverServer, Failures, entries, find_pod,
  visit, on_entry, for_hosts, unless_missing,
}
use nebula_operator.Failover.Manager.{
  Component, restart_found, restart_one, try_restart_pod, tolerate_found, tolerate_one,
  tolerate_all, tolerate_pods, failover,
}
use nebula_operator.Failover.Manager.Done.{contains_name, RangesOverAll}

-- The run returns this value, with the same hosts.
unfoldable pub Returns : {A : Type 0} → M Failures A → A → Type 0
Returns m a =
    (w : Failures) → (u : Failures) × (m w ≡ (ok a, u)) × (u.failure_hosts ≡ w.failure_hosts)

bind-Returns :
    {A B : Type 0} (m : M Failures A) (f : A → M Failures B) (a : A) (b : B)
    → Returns m a
    → Returns (f a) b
    → Returns (m >>= f) b
unfolding Returns
bind-Returns m f a b rm rf w =
    let (u, e, k) = rm w in let (v, e', k') = rf u in (v, ap (λ r. then_run r f) e ∙ e', k' ∙ k)

return-Returns : {A : Type 0} (a : A) → Returns (return a) a
unfolding Returns
return-Returns a w = (w, refl, refl)

if-Returns :
    {A : Type 0} (b : Bool) (m k : M Failures A) (a : A)
    → Returns m a
    → Returns k a
    → Returns (if b then m else k) a
if-Returns true m k a rm rk = rm
if-Returns false m k a rm rk = rk

bind_panics :
    {A B : Type 0} (m : M Failures A) (f : A → M Failures B) (w : Failures)
    → (m w).0 ≡ panic
    → ((m >>= f) w).0 ≡ panic
bind_panics {A} {B} m f w = go (m w)
  where
    go : (r : Outcome A × Failures) → r.0 ≡ panic → (then_run r f).0 ≡ panic
    go (ok a, u) e = absurd (ground arith)
    go (err x, u) e = absurd (ground arith)
    go (panic, u) e = refl

then_panics :
    {A B : Type 0} (m : M Failures A) (f : A → M Failures B) (w : Failures) (a : A) (u : Failures)
    → m w ≡ (ok a, u)
    → (f a u).0 ≡ panic
    → ((m >>= f) w).0 ≡ panic
then_panics m f w a u e k = ap (λ r. (then_run r f).0) e ∙ k

-- The API server has none of the pods.
abbrev pub PodsMissing : FailoverServer → Type 0
PodsMissing server = (calls : List FailoverCall) → server.pod calls ≡ err not_found

module _ (server : FailoverServer) (missing : PodsMissing server) where
  find_pod-Returns : (name : Name) → Returns (find_pod server name) none
  unfolding Returns find_pod
  find_pod-Returns name w = (
    record w { calls = FailoverCall.get_pod name ∷ w.calls },
    ap
        (λ (o : Outcome FailedPod).
          (attempt (λ (u : Failures). (o, record u { calls = FailoverCall.get_pod name ∷ u.calls }))
              >>= unless_missing server)
            w)
        (missing (FailoverCall.get_pod name ∷ w.calls)),
    refl,
  )

  restart_one-Returns : (name : Name) (fh : FailureHost) → Returns (restart_one server name fh) tt
  unfolding restart_one restart_found
  restart_one-Returns name fh =
      if-Returns fh.pod_restarted (return tt)
        (find_pod server name >>= restart_found server name fh) tt (return-Returns tt)
        (bind-Returns (find_pod server name) (restart_found server name fh) none tt
          (find_pod-Returns name) (return-Returns tt))

  visit-Returns : (name : Name) → Returns (visit tt (restart_one server) name) tt
  unfolding Returns
  visit-Returns name w = go (lookup (entries w.failure_hosts) name)
    where
      go :
          (o : Option FailureHost)
          → (u : Failures) × (on_entry tt (restart_one server name) o w ≡ (ok tt, u))
            × (u.failure_hosts ≡ w.failure_hosts)
      go none = (w, refl, refl)
      go (some fh) = restart_one-Returns name fh w

  restart_all-Returns : (names : List Name) → Returns (for_hosts (restart_one server) names) tt
  unfolding for_hosts
  restart_all-Returns [] = return-Returns tt
  restart_all-Returns (name ∷ names) =
      bind-Returns (visit tt (restart_one server) name) (λ _. for_hosts (restart_one server) names)
        tt tt (visit-Returns name) (restart_all-Returns names)

  -- The turn of a host that has still to be rebuilt.
  tolerate_one_panics :
      (name : Name) (fh : FailureHost) (w : Failures)
      → fh.pod_rebuilt ≡ false
      → (tolerate_one server name fh w).0 ≡ panic
  unfolding tolerate_one tolerate_found Returns
  tolerate_one_panics name fh w e = go fh.pod_rebuilt e
    where
      go :
          (b : Bool)
          → b ≡ false
          → ((if b then return false else find_pod server name >>= tolerate_found server) w).0
            ≡ panic
      go true d = absurd (ground arith)
      go false d =
          let (u, k, _) = find_pod-Returns name w in
          ap (λ (r : Outcome (Option FailedPod) × Failures). (then_run r (tolerate_found server)).0)
            k

  -- A turn panics, or it returns with the same hosts.
  abbrev Turn : Outcome Bool × Failures → Failures → Type 0
  Turn r w =
      (r.0 ≡ panic)
      ⊎ ((ready : Bool) × (u : Failures) × (r ≡ (ok ready, u))
          × (u.failure_hosts ≡ w.failure_hosts))

  tolerate_one-Turn :
      (name : Name) (fh : FailureHost) (w : Failures) → Turn (tolerate_one server name fh w) w
  unfolding tolerate_one
  tolerate_one-Turn name fh w = elim (Bool-cases fh.pod_rebuilt) [
    | inl y ↦ inr (
      false,
      w,
      ap (λ b. (if b then return false else find_pod server name >>= tolerate_found server) w) y,
      refl,
    )
    | inr y ↦ inl (tolerate_one_panics name fh w y)
  ]

  visit-Turn : (name : Name) (w : Failures) → Turn (visit false (tolerate_one server) name w) w
  visit-Turn name w = go (lookup (entries w.failure_hosts) name)
    where
      go : (o : Option FailureHost) → Turn (on_entry false (tolerate_one server name) o w) w
      go none = inr (false, w, refl, refl)
      go (some fh) = tolerate_one-Turn name fh w

  visit_panics :
      (name : Name) (fh : FailureHost) (w : Failures)
      → lookup (entries w.failure_hosts) name ≡ some fh
      → fh.pod_rebuilt ≡ false
      → (visit false (tolerate_one server) name w).0 ≡ panic
  visit_panics name fh w x e =
      ap (λ (o : Option FailureHost). (on_entry false (tolerate_one server name) o w).0) x
      ∙ tolerate_one_panics name fh w e

  tolerate_all_panics :
      (names : List Name) (name : Name) (fh : FailureHost) (w : Failures)
      → contains_name names name ≡ true
      → lookup (entries w.failure_hosts) name ≡ some fh
      → fh.pod_rebuilt ≡ false
      → (tolerate_all server names w).0 ≡ panic
  unfolding tolerate_all
  tolerate_all_panics [] name fh w c x e = absurd (ground arith)
  tolerate_all_panics (n ∷ names) name fh w c x e = elim (Bool-cases (same n name)) [
    | inl y ↦
        bind_panics (visit false (tolerate_one server) n) _ w
          (visit_panics n fh w (rw (same_eq n name y) x) e)
    | inr y ↦ elim (visit-Turn n w) [
      | inl p ↦ bind_panics (visit false (tolerate_one server) n) _ w p
      | inr t ↦
          let rest =
            bind_panics (tolerate_all server names)
              (λ rest. return (if t.0 then n ∷ rest else rest)) t.1
              (tolerate_all_panics names name fh t.1 (ground arith)
                (ap (λ (o : Option Hosts). lookup (entries o) name) t.3 ∙ x) e) in
          ap
            (λ (r : Outcome Bool × Failures).
              (then_run r (λ ready.
                tolerate_all server names >>= λ more. return (if ready then n ∷ more else more))).0)
            t.2
          ∙ rest
    ]
  ]

-- Where the API server has none of the pods, `Failover` of a component with a host that has still to be
-- rebuilt panics. It needs that `range` visits every key of the map.
pub failover_panics :
    (server : FailoverServer) (c : Component) (w : Failures) (name : Name) (fh : FailureHost)
    → PodsMissing server
    → RangesOverAll server
    → lookup (entries w.failure_hosts) name ≡ some fh
    → fh.pod_rebuilt ≡ false
    → (failover server c w).0 ≡ panic
unfolding failover try_restart_pod tolerate_pods Returns
failover_panics server c w name fh missing all x e =
    let (u, k, same_hosts) =
      restart_all-Returns server missing (server.range w.calls (entries w.failure_hosts)) w in
    let in_u : lookup (entries u.failure_hosts) name ≡ some fh =
      ap (λ (o : Option Hosts). lookup (entries o) name) same_hosts ∙ x in
    then_panics (try_restart_pod server) _ w tt u k (
      bind_panics (tolerate_pods server) _ u (
        tolerate_all_panics server missing (server.range u.calls (entries u.failure_hosts)) name fh
          u (all u.calls (entries u.failure_hosts) name fh in_u) in_u e))
