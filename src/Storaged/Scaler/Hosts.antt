-- ===== src/Storaged/Scaler/Hosts.antt =====
-- pkg/controller/component/storaged_scaler.go: the hosts that a scale-in drops.
use nebula_operator.Common.{
  ℕ, zero, suc, ◌+◌, ◌≡◌, refl, sym, ap, ◌∙◌, ◌⊎◌, inl, inr, Bool, true, false, List, [], ◌∷◌,
  arith, if◌then◌else◌,
}
use nebula_operator.Common.Effect.{
  M, Outcome, ok, err, panic, not_found, reconcile, job_failed, other, ◌>>=◌, return, attempt,
  >>=-eq-ok,
}
use nebula_operator.Nebula.World.{World, Call, get_pod}
use nebula_operator.Nebula.Meta.{MetaServer}
use nebula_operator.Storaged.Api.{ApiServer, Pod}
use nebula_operator.Storaged.Scaler.{is_pending, collected, collect_hosts}

module _ (api : ApiServer) (meta : MetaServer) where
  -- The API server answered the pod, and it was not pending.
  abbrev pub Present : ℕ → Type 0
  Present i =
      (calls : List Call) × (pod : Pod) × (api.pod (get_pod i ∷ calls) ≡ ok pod)
      × (is_pending pod.pod_phase ≡ false)

  -- The API server did not find the pod, or it was pending.
  abbrev pub Absent : ℕ → Type 0
  Absent i =
      (calls : List Call) × ((api.pod (get_pod i ∷ calls) ≡ err not_found)
        ⊎ ((pod : Pod) × (api.pod (get_pod i ∷ calls) ≡ ok pod)
            × (is_pending pod.pod_phase ≡ true)))

  -- The hosts are those of the pods `low + count - 1` down to `low` that are present.
  abbrev pub Collected : ℕ → ℕ → List ℕ → Type 0
  Collected zero low hosts = hosts ≡ []
  Collected (suc count) low hosts =
      (rest : List ℕ) × Collected count low rest
      × ((Present (low + count) × (hosts ≡ (low + count) ∷ rest))
          ⊎ (Absent (low + count) × (hosts ≡ rest)))

  abbrev hosts_of : Outcome (List ℕ) × World → List ℕ
  hosts_of (ok hosts, w) = hosts
  hosts_of (err e, w) = []
  hosts_of (panic, w) = []

  abbrev Below : M World (List ℕ) → ℕ → ℕ → Type 0
  Below below count low =
      (hosts : List ℕ) (w v : World)
      → below w ≡ (ok hosts, v)
      → Collected count low hosts × (v.cluster ≡ w.cluster)

  collected_ok :
      (count low : ℕ) (below : M World (List ℕ))
      → Below below count low
      → (o : Outcome Pod) (calls : List Call) → api.pod (get_pod (low + count) ∷ calls) ≡ o
      → Below (collected api meta o (low + count) below) (suc count) low
  unfolding collected
  collected_ok count low below k (ok pod) calls e hosts w v = go (is_pending pod.pod_phase) refl
    where
      go :
          (b : Bool)
          → is_pending pod.pod_phase ≡ b
          → (if b then below else do rest ← below; return ((low + count) ∷ rest)) w ≡ (ok hosts, v)
          → Collected (suc count) low hosts × (v.cluster ≡ w.cluster)
      go true p h =
          let (all, kept) = k hosts w v h in
          ((hosts, all, inr ((calls, inr (pod, e, p)), refl)), kept)
      go false p h =
          let (rest, u, f, g) =
            >>=-eq-ok below (λ rest. return ((low + count) ∷ rest)) w v hosts h in
          let (all, kept) = k rest w u f in
          (
            (rest, all, inl ((calls, pod, e, p), sym (ap hosts_of g))),
            ap (λ (p : Outcome (List ℕ) × World). p.1.cluster) (sym g) ∙ kept,
          )
  collected_ok count low below k (err not_found) calls e hosts w v =
      λ h. let (all, kept) = k hosts w v h in ((hosts, all, inr ((calls, inl e), refl)), kept)
  collected_ok count low below k (err reconcile) calls e hosts w v = λ h. absurd (ground arith)
  collected_ok count low below k (err job_failed) calls e hosts w v = λ h. absurd (ground arith)
  collected_ok count low below k (err (other n)) calls e hosts w v = λ h. absurd (ground arith)
  collected_ok count low below k panic calls e hosts w v = λ h. absurd (ground arith)

  pub collect_hosts_ok :
      (count low : ℕ) (hosts : List ℕ) (w v : World)
      → collect_hosts api meta count low w ≡ (ok hosts, v)
      → Collected count low hosts × (v.cluster ≡ w.cluster)
  unfolding collect_hosts
  collect_hosts_ok zero low hosts w v h =
      (sym (ap hosts_of h), ap (λ (p : Outcome (List ℕ) × World). p.1.cluster) (sym h))
  collect_hosts_ok (suc count) low hosts w v h =
      go (collect_hosts api meta count low) (λ hosts u x. collect_hosts_ok count low hosts u x)
        (api.pod (get_pod (low + count) ∷ w.calls)) refl h
    where
      go :
          (below : M World (List ℕ))
          → Below below count low
          → (o : Outcome Pod) → api.pod (get_pod (low + count) ∷ w.calls) ≡ o
          → (attempt (λ (u : World). (o, record u { calls = get_pod (low + count) ∷ u.calls }))
                >>= λ r. collected api meta r (low + count) below)
              w
            ≡ (ok hosts, v)
          → Collected (suc count) low hosts × (v.cluster ≡ w.cluster)
      go below k (ok pod) e h =
          collected_ok count low below k (ok pod) w.calls e hosts
            (record w { calls = get_pod (low + count) ∷ w.calls }) v h
      go below k (err x) e h =
          collected_ok count low below k (err x) w.calls e hosts
            (record w { calls = get_pod (low + count) ∷ w.calls }) v h
      go below k panic e h = absurd (ground arith)
