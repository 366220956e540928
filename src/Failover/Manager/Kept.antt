-- ===== src/Failover/Manager/Kept.antt =====
-- pkg/controller/component/{graphd,metad,storaged}_failover.go: the parts of `Failover` that leave the
-- failure hosts as they are.
use nebula_operator.Common.{
  ◌+◌, ◌&&◌, not, Bool, true, false, Option, none, some, List, [], ◌∷◌, ◌≡◌, refl, ◌∙◌,
  if◌then◌else◌, contains, ltb,
}
use nebula_operator.Common.Effect.{
  M, Outcome, ok, err, panic, reconcile, not_found, job_failed, other, ◌>>=◌, ◌>>◌, then_run,
  return, fail, attempt,
}
use nebula_operator.Scheduler.PodName.{Name}
use nebula_operator.Failover.Hosts.{
  FailureHost, range_hosts, lookup, FailoverCall, FailedPod, Claim, FailoverServer, Failures,
  entries, find_pod, get_pod_and_pvcs, visit, on_entry, for_hosts, is_pod_pending, delete_pod,
  request, is_pod_terminating, is_pod_healthy, time, delete_pvc, update_finalizer, select,
  unless_missing, or_no_claims, is_pod_condition_scheduled_true,
}
use nebula_operator.Failover.Manager.{
  tolerate_found, tolerate_one, tolerate_all, delete_claims, release_claims, delete_pending,
  check_found, check_one, minute, some_finalizer,
}

unfoldable pub Kept : {A : Type 0} → M Failures A → Type 0
Kept m = (w : Failures) → (m w).1.failure_hosts ≡ w.failure_hosts

pub constant-Kept : {A : Type 0} (o : Outcome A) → Kept (λ w. (o, w))
unfolding Kept
constant-Kept o w = refl

pub request-Kept :
    {A : Type 0} (answer : List FailoverCall → Outcome A) (call : FailoverCall)
    → Kept (request answer call)
unfolding Kept
request-Kept answer call w = refl

pub bind-Kept :
    {A B : Type 0} (m : M Failures A) (f : A → M Failures B)
    → Kept m
    → ((a : A) → Kept (f a))
    → Kept (m >>= f)
unfolding Kept
bind-Kept {A} {B} m f km kf w = go (m w) (km w)
  where
    go :
        (r : Outcome A × Failures)
        → r.1.failure_hosts ≡ w.failure_hosts
        → (then_run r f).1.failure_hosts ≡ w.failure_hosts
    go (ok a, u) k = kf a u ∙ k
    go (err x, u) k = k
    go (panic, u) k = k

pub attempt-Kept : {A : Type 0} (m : M Failures A) → Kept m → Kept (attempt m)
unfolding Kept
attempt-Kept {A} m km w = go (m w) (km w)
  where
    go :
        (r : Outcome A × Failures)
        → r.1.failure_hosts ≡ w.failure_hosts
        → (attempt (λ (_ : Failures). r) w).1.failure_hosts ≡ w.failure_hosts
    go (ok a, u) d = d
    go (err x, u) d = d
    go (panic, u) d = d

pub if-Kept :
    {A : Type 0} (b : Bool) (m k : M Failures A) → Kept m → Kept k → Kept (if b then m else k)
unfolding Kept
if-Kept true m k sm sk = sm
if-Kept false m k sm sk = sk

pub visit-Kept :
    {A : Type 0} (d : A) (body : Name → FailureHost → M Failures A)
    → ((name : Name) (fh : FailureHost) → Kept (body name fh))
    → (name : Name) → Kept (visit d body name)
unfolding Kept
visit-Kept d body k name w = go (lookup (entries w.failure_hosts) name)
  where
    go : (o : Option FailureHost) → (on_entry d (body name) o w).1.failure_hosts ≡ w.failure_hosts
    go none = refl
    go (some fh) = k name fh w

pub for_hosts-Kept :
    (body : Name → FailureHost → M Failures (Unit {0}))
    → ((name : Name) (fh : FailureHost) → Kept (body name fh))
    → (names : List Name) → Kept (for_hosts body names)
unfolding for_hosts
for_hosts-Kept body k [] = constant-Kept (ok _)
for_hosts-Kept body k (name ∷ names) =
    bind-Kept (visit tt body name) _ (visit-Kept tt body k name) (λ _. for_hosts-Kept body k names)

unless_missing-Kept :
    {A : Type 0} (server : FailoverServer) (o : Outcome A) → Kept (unless_missing server o)
unless_missing-Kept server (ok a) = constant-Kept (ok (some a))
unless_missing-Kept server (err not_found) = constant-Kept (ok none)
unless_missing-Kept server (err reconcile) = constant-Kept (err reconcile)
unless_missing-Kept server (err job_failed) = constant-Kept (err job_failed)
unless_missing-Kept server (err (other n)) = constant-Kept (err (other n))
unless_missing-Kept server panic = constant-Kept panic

returns-Kept : Kept (return tt)
returns-Kept = constant-Kept (ok tt)

module _ (server : FailoverServer) where
  allowed-Kept :
      {A : Type 0} (answer : List FailoverCall → Outcome A) (call : FailoverCall)
      → Kept (attempt (request answer call) >>= unless_missing server)
  allowed-Kept answer call =
      bind-Kept (attempt (request answer call)) (unless_missing server)
        (attempt-Kept (request answer call) (request-Kept answer call)) (unless_missing-Kept server)

  pub find_pod-Kept : (name : Name) → Kept (find_pod server name)
  unfolding find_pod
  find_pod-Kept name = allowed-Kept server.pod (FailoverCall.get_pod name)

  pub get_pod_and_pvcs-Kept : (name : Name) → Kept (get_pod_and_pvcs server name)
  unfolding get_pod_and_pvcs
  get_pod_and_pvcs-Kept name = bind-Kept (find_pod server name) _ (find_pod-Kept name) (λ pod.
      bind-Kept (select server name) _ (constant-Kept (server.selector name)) (λ _.
        bind-Kept
          (attempt (request server.pvcs (FailoverCall.list_pvcs name)) >>= unless_missing server) _
          (allowed-Kept server.pvcs (FailoverCall.list_pvcs name))
          (λ pvcs. constant-Kept (ok (pod, or_no_claims server pvcs)))))

  pub delete_claims-Kept :
      (fh : FailureHost) (pvcs : List Claim) → Kept (delete_claims server fh pvcs)
  unfolding delete_claims
  delete_claims-Kept fh [] = returns-Kept
  delete_claims-Kept fh (pvc ∷ pvcs) =
      let b = contains fh.pvc_set pvc.uid && not pvc.deleting in
      let drop = request server.done (delete_pvc pvc.uid) in
      bind-Kept (if b then drop else return tt) (λ _. delete_claims server fh pvcs)
        (if-Kept b drop (return tt) (request-Kept server.done (delete_pvc pvc.uid)) returns-Kept)
        (λ _. delete_claims-Kept fh pvcs)

  -- A request that is followed by a `ReconcileError`.
  wait-Kept :
      (call : FailoverCall) → Kept {A = Unit {0}} (do request server.done call; fail reconcile)
  wait-Kept call =
      bind-Kept (request server.done call) (λ _. fail reconcile) (request-Kept server.done call)
        (λ _. constant-Kept (err reconcile))

  pub release_claims-Kept :
      (fh : FailureHost) (pvcs : List Claim) → Kept (release_claims server fh pvcs)
  unfolding release_claims
  release_claims-Kept fh [] = returns-Kept
  release_claims-Kept fh (pvc ∷ pvcs) =
      let b =
        contains fh.pvc_set pvc.uid && (pvc.deleting && some_finalizer server pvc.finalizers) in
      let wait : M Failures (Unit {0}) = (do
        request server.done (update_finalizer pvc.uid)
        fail reconcile) in
      bind-Kept (if b then wait else return tt) (λ _. release_claims server fh pvcs)
        (if-Kept b wait (return tt) (wait-Kept (update_finalizer pvc.uid)) returns-Kept)
        (λ _. release_claims-Kept fh pvcs)

  tolerate_found-Kept : (o : Option FailedPod) → Kept (tolerate_found server o)
  unfolding tolerate_found
  tolerate_found-Kept none = constant-Kept panic
  tolerate_found-Kept (some pod) =
      if-Kept (is_pod_terminating pod) (fail reconcile) _ (constant-Kept (err reconcile)) (
        if-Kept (is_pod_healthy server pod) (return true) _ (constant-Kept (ok true)) (
          bind-Kept (time server) _
            (request-Kept (λ calls. ok (server.now calls)) FailoverCall.clock)
            (λ now.
              if-Kept (ltb now (pod.created + minute)) (fail reconcile) (return false)
                (constant-Kept (err reconcile)) (constant-Kept (ok false)))))

  tolerate_one-Kept : (name : Name) (fh : FailureHost) → Kept (tolerate_one server name fh)
  unfolding tolerate_one
  tolerate_one-Kept name fh = if-Kept fh.pod_rebuilt (return false) _ (constant-Kept (ok false)) (
      bind-Kept (find_pod server name) (tolerate_found server) (find_pod-Kept name)
        tolerate_found-Kept)

  pub tolerate_all-Kept : (names : List Name) → Kept (tolerate_all server names)
  unfolding tolerate_all
  tolerate_all-Kept [] = constant-Kept (ok [])
  tolerate_all-Kept (name ∷ names) =
      bind-Kept (visit false (tolerate_one server) name) _
        (visit-Kept false (tolerate_one server) tolerate_one-Kept name)
        (λ ready.
          bind-Kept (tolerate_all server names) _ (tolerate_all-Kept names)
            (λ rest. constant-Kept (ok (if ready then name ∷ rest else rest))))

  delete_pending-Kept : (name : Name) (pod : FailedPod) → Kept (delete_pending server name pod)
  unfolding delete_pending
  delete_pending-Kept name pod =
      if-Kept (is_pod_condition_scheduled_true pod.conditions && is_pod_pending pod)
        (do
          now ← time server
          if ltb (pod.created + minute) now
              then (do request server.done (delete_pod name); fail reconcile)
              else return tt)
        (return tt)
        (bind-Kept (time server) _
          (request-Kept (λ calls. ok (server.now calls)) FailoverCall.clock)
          (λ now.
            if-Kept (ltb (pod.created + minute) now)
              (do request server.done (delete_pod name); fail reconcile) (return tt)
              (wait-Kept (delete_pod name)) returns-Kept))
        returns-Kept

  pub check_one-Kept : (name : Name) (fh : FailureHost) → Kept (check_one server name fh)
  unfolding check_one check_found
  check_one-Kept name fh =
      bind-Kept (get_pod_and_pvcs server name) (check_found server name fh)
        (get_pod_and_pvcs-Kept name) found
    where
      found : (r : Option FailedPod × List Claim) → Kept (check_found server name fh r)
      found (none, pvcs) = constant-Kept (err (other 0))
      found (some pod, pvcs) =
          bind-Kept (release_claims server fh pvcs) (λ _. delete_pending server name pod)
            (release_claims-Kept fh pvcs) (λ _. delete_pending-Kept name pod)

  pub range_hosts-Kept : Kept (range_hosts server)
  unfolding Kept
  range_hosts-Kept w = refl
