-- ===== src/Failover/Manager/Answered.antt =====
-- pkg/controller/component/{graphd,metad,storaged}_failover.go: the requests of a failover whose server is
-- steady.
use nebula_operator.Common.{
  ◌&&◌, not, false, Option, none, some, List, [], ◌∷◌, ◌≡◌, if◌then◌else◌, arith, contains, All,
}
use nebula_operator.Common.Effect.{
  M, Outcome, ok, err, panic, reconcile, ◌>>=◌, ◌>>◌, return, fail, attempt,
}
use nebula_operator.Scheduler.PodName.{Name}
use nebula_operator.Failover.Hosts.{
  FailureHost, Hosts, FailoverCall, FailedPod, Claim, FailoverServer, Failures, find_pod,
  get_pod_and_pvcs, request, delete_pvc, update_finalizer, select, unless_missing, or_no_claims,
}
use nebula_operator.Failover.Manager.{delete_claims, release_claims, some_finalizer}
use nebula_operator.Failover.Manager.Live.{
  Gives, Any, Stuck, Steady, Turns, Live, bind-Live, return-Live, if-Live, request-Live, passes,
}

-- What a stuck pod is found as, and the claims with it.
abbrev pub Found : FailoverServer → Option FailedPod → Type 0
Found server none = ⊥
Found server (some pod) = Stuck server pod

abbrev pub KeptClaims : List Claim → Type 0
KeptClaims = All (λ pvc. pvc.deleting ≡ false)

abbrev pub Both : FailoverServer → Option FailedPod × List Claim → Type 0
Both server r = Found server r.0 × KeptClaims r.1

abbrev AllKept : Option (List Claim) → Type 0
AllKept none = ⊥
AllKept (some pvcs) = KeptClaims pvcs

module _ (server : FailoverServer) (steady : Steady server) (h : Option Hosts) where
  -- A request that may find nothing finds what the server gives.
  allowed-Live :
      {A : Type 0} (answer : List FailoverCall → Outcome A) (call : FailoverCall)
      (Q : Option A → Type 0)
      → ((calls : List FailoverCall) → Gives (λ a. Q (some a)) (answer calls))
      → Live h (attempt (request answer call) >>= unless_missing server) Q
  unfolding Live
  allowed-Live {A} answer call Q g w e = go (answer (call ∷ w.calls)) (g (call ∷ w.calls))
    where
      go :
          (o : Outcome A)
          → Gives (λ a. Q (some a)) o
          → Turns h Q (
              (attempt (λ (v : Failures). (o, record v { calls = call ∷ v.calls }))
                  >>= unless_missing server)
                w)
      go (ok a) q = passes (some a) _ e q
      go (err x) q = absurd q
      go panic q = absurd q

  pub find_pod-Live : (name : Name) → Live h (find_pod server name) (Found server)
  unfolding find_pod
  find_pod-Live name = allowed-Live server.pod (FailoverCall.get_pod name) (Found server) steady.0

  select-Live : (name : Name) → Live h (select server name) Any
  unfolding Live
  select-Live name w e = go (server.selector name) (steady.4 name)
    where
      go : (o : Outcome (Unit {0})) → Gives Any o → Turns h Any (o, w)
      go (ok a) q = passes a w e tt
      go (err x) q = absurd q
      go panic q = absurd q

  pub get_pod_and_pvcs-Live : (name : Name) → Live h (get_pod_and_pvcs server name) (Both server)
  unfolding get_pod_and_pvcs
  get_pod_and_pvcs-Live name =
      bind-Live h (find_pod server name) (Found server) _ (Both server) (find_pod-Live name)
        (λ pod found.
          bind-Live h (select server name) Any _ (Both server) (select-Live name) (λ _ _.
            bind-Live h
              (attempt (request server.pvcs (FailoverCall.list_pvcs name))
                >>= unless_missing server)
              AllKept _ (Both server)
              (allowed-Live server.pvcs (FailoverCall.list_pvcs name) AllKept steady.3)
              (λ pvcs kept.
                return-Live h (pod, or_no_claims server pvcs) (Both server)
                  (found, claims pvcs kept))))
    where
      claims : (o : Option (List Claim)) → AllKept o → KeptClaims (or_no_claims server o)
      claims none k = absurd k
      claims (some pvcs) k = k

  pub done-Live : (call : FailoverCall) → Live h (request server.done call) Any
  done-Live call = request-Live h server.done call Any steady.2

  pub skip-Live : Live h (return tt) Any
  skip-Live = return-Live h tt Any tt

  pub delete_claims-Live :
      (fh : FailureHost) (pvcs : List Claim) → Live h (delete_claims server fh pvcs) Any
  unfolding delete_claims
  delete_claims-Live fh [] = skip-Live
  delete_claims-Live fh (pvc ∷ pvcs) =
      let b = contains fh.pvc_set pvc.uid && not pvc.deleting in
      let drop = request server.done (delete_pvc pvc.uid) in
      bind-Live h (if b then drop else return tt) Any (λ _. delete_claims server fh pvcs) Any
        (if-Live h b drop (return tt) Any (λ _. done-Live (delete_pvc pvc.uid)) (λ _. skip-Live))
        (λ _ _. delete_claims-Live fh pvcs)

  pub release_claims-Live :
      (fh : FailureHost) (pvcs : List Claim)
      → KeptClaims pvcs
      → Live h (release_claims server fh pvcs) Any
  unfolding release_claims
  release_claims-Live fh [] k = skip-Live
  release_claims-Live fh (pvc ∷ pvcs) k =
      let b =
        contains fh.pvc_set pvc.uid && (pvc.deleting && some_finalizer server pvc.finalizers) in
      let wait : M Failures (Unit {0}) = (do
        request server.done (update_finalizer pvc.uid)
        fail reconcile) in
      bind-Live h (if b then wait else return tt) Any (λ _. release_claims server fh pvcs) Any
        (if-Live h b wait (return tt) Any (λ e. absurd (let d = k.0 in ground arith))
          (λ _. skip-Live))
        (λ _ _. release_claims-Live fh pvcs k.1)
