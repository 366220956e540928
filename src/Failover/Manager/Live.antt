-- ===== src/Failover/Manager/Live.antt =====
-- pkg/controller/component/{graphd,metad,storaged}_failover.go: calls of
-- `Failover` where every request is answered and the pods stay stuck.
use nebula_operator.Common.{
  ◌+◌, Bool, true, false, Option, none, some, List, [], ◌∷◌, ◌≡◌, refl, sym, ap, ◌∙◌, if◌then◌else◌,
  arith, ltb, All,
}
use nebula_operator.Common.Effect.{
  M, Outcome, ok, err, panic, reconcile, not_found, job_failed, other, ◌>>=◌, then_run, return,
  fail,
}
use nebula_operator.Scheduler.PodName.{Name}
use nebula_operator.Failover.Hosts.{
  FailureHost, Hosts, lookup, put, FailoverCall, FailedPod, FailoverServer, Failures, entries,
  visit, on_entry, for_hosts, put_host, is_pod_pending, request, is_pod_terminating, is_pod_healthy,
}
use nebula_operator.Failover.Manager.{minute}
use nebula_operator.Failover.Manager.Moves.{HostStep}

-- An outcome that is a value of which `Q` holds.
abbrev pub Gives : {A : Type 0} → (A → Type 0) → Outcome A → Type 0
Gives Q (ok a) = Q a
Gives Q (err e) = ⊥
Gives Q panic = ⊥

abbrev pub Any : {A : Type 0} → A → Type 0
Any a = Unit

-- A pod that is neither pending, nor being deleted, nor healthy, past the time it is tolerated.
abbrev pub Stuck : FailoverServer → FailedPod → Type 0
Stuck server pod =
    (is_pod_terminating pod ≡ false)
    × (is_pod_pending pod ≡ false)
    × (is_pod_healthy server pod ≡ false)
    × ((calls : List FailoverCall) → ltb (server.now calls) (pod.created + minute) ≡ false)

-- Every request is answered, the pods are stuck, and no claim is being deleted.
abbrev pub Steady : FailoverServer → Type 0
Steady server =
    ((calls : List FailoverCall) → Gives (Stuck server) (server.pod calls))
    × ((calls : List FailoverCall) → Gives Any (server.node calls))
    × ((calls : List FailoverCall) → Gives Any (server.done calls))
    × ((calls : List FailoverCall) → Gives (All (λ pvc. pvc.deleting ≡ false)) (server.pvcs calls))
    × ((name : Name) → Gives Any (server.selector name))

-- A run that returns a value, with the hosts as they are, or that takes one host a step further.
pub data Turns {A : Type 0} (h : Option Hosts) (Q : A → Type 0)
    : Outcome A × Failures → Type 0 where
  passes : (a : A) (w : Failures) → w.failure_hosts ≡ h → Q a → Turns h Q (ok a, w)
  turns :
      (hosts : Hosts) (name : Name) (fh fh' : FailureHost) (w : Failures)
      → h ≡ some hosts
      → lookup hosts name ≡ some fh
      → HostStep fh fh'
      → w.failure_hosts ≡ some (put hosts name fh')
      → Turns h Q (err reconcile, w)

module _ (h : Option Hosts) where
  unfoldable pub Live : {A : Type 0} → M Failures A → (A → Type 0) → Type 0
  Live m Q = (w : Failures) → w.failure_hosts ≡ h → Turns h Q (m w)

  pub bind-Live :
      {A B : Type 0} (m : M Failures A) (Q : A → Type 0) (f : A → M Failures B) (R : B → Type 0)
      → Live m Q
      → ((a : A) → Q a → Live (f a) R)
      → Live (m >>= f) R
  unfolding Live
  bind-Live {A} {B} m Q f R lm lf w e = go (m w) (lm w e)
    where
      go : (r : Outcome A × Failures) → Turns h Q r → Turns h R (then_run r f)
      go (ok a, u) (passes _ _ k q) = lf a q u k
      go (err reconcile, u) (turns hosts n fh fh' _ a b c d) = turns hosts n fh fh' u a b c d
      go (err not_found, u) x = elim x [ ]
      go (err job_failed, u) x = elim x [ ]
      go (err (other _), u) x = elim x [ ]
      go (panic, u) x = elim x [ ]

  pub return-Live : {A : Type 0} (a : A) (Q : A → Type 0) → Q a → Live (return a) Q
  unfolding Live
  return-Live a Q q w e = passes a w e q

  pub if-Live :
      {A : Type 0} (b : Bool) (m k : M Failures A) (Q : A → Type 0)
      → (b ≡ true → Live m Q)
      → (b ≡ false → Live k Q)
      → Live (if b then m else k) Q
  if-Live true m k Q sm sk = sm refl
  if-Live false m k Q sm sk = sk refl

  pub request-Live :
      {A : Type 0} (answer : List FailoverCall → Outcome A) (call : FailoverCall) (Q : A → Type 0)
      → ((calls : List FailoverCall) → Gives Q (answer calls))
      → Live (request answer call) Q
  unfolding Live
  request-Live {A} answer call Q g w e = go (answer (call ∷ w.calls)) (g (call ∷ w.calls))
    where
      go : (o : Outcome A) → Gives Q o → Turns h Q (o, record w { calls = call ∷ w.calls })
      go (ok a) q = passes a _ e q
      go (err x) q = absurd q
      go panic q = absurd q

  pub visit-Live :
      {A : Type 0} (d : A) (body : Name → FailureHost → M Failures A) (Q : A → Type 0)
      → Q d
      → ((name : Name) (fh : FailureHost)
          → lookup (entries h) name ≡ some fh
          → Live (body name fh) Q)
      → (name : Name) → Live (visit d body name) Q
  unfolding Live
  visit-Live d body Q q k name w e =
      go (lookup (entries w.failure_hosts) name)
        (ap (λ (o : Option Hosts). lookup (entries o) name) (sym e))
    where
      go :
          (o : Option FailureHost)
          → lookup (entries h) name ≡ o
          → Turns h Q (on_entry d (body name) o w)
      go none _ = passes d w e q
      go (some fh) x = k name fh x w e

  pub for_hosts-Live :
      (body : Name → FailureHost → M Failures (Unit {0}))
      → ((name : Name) (fh : FailureHost)
          → lookup (entries h) name ≡ some fh
          → Live (body name fh) Any)
      → (names : List Name) → Live (for_hosts body names) Any
  unfolding for_hosts
  for_hosts-Live body k [] = return-Live tt Any tt
  for_hosts-Live body k (name ∷ names) =
      bind-Live (visit tt body name) Any (λ _. for_hosts body names) Any
        (visit-Live tt body Any tt k name) (λ _ _. for_hosts-Live body k names)

  pub put_host-Live :
      (name : Name) (fh fh' : FailureHost)
      → lookup (entries h) name ≡ some fh
      → HostStep fh fh'
      → Live {A = Unit {0}} (put_host name fh' >>= λ _. fail reconcile) Any
  unfolding Live lookup
  put_host-Live name fh fh' x s w e = go (w.failure_hosts) e
    where
      go :
          (o : Option Hosts)
          → o ≡ h
          → Turns {A = Unit {0}} h Any (
              (put_host name fh' >>= λ (_ : Unit {0}). fail reconcile)
                (record w { failure_hosts = o }))
      go none d = absurd (
          let y : none ≡ some fh = ap (λ (o : Option Hosts). lookup (entries o) name) d ∙ x in
          ground arith)
      go (some hosts) d =
          turns hosts name fh fh' _ (sym d)
            (ap (λ (o : Option Hosts). lookup (entries o) name) d ∙ x) s refl
