-- ===== src/Storaged/Updater/NextPod.antt =====
-- pkg/controller/component/helper.go: the pod that a rolling update takes next.
use native.Mathlib.Decide.{dec_lt}
use mathlib.Core.Path.{subst}
use nebula_operator.Common.{
  ℕ, zero, suc, ◌<◌, ◌≡◌, ◌≢◌, refl, ap, sym, ◌⊎◌, inl, inr, Bool, true, false, Option, none, some,
  List, ◌∷◌, arith, ◌==◌, ==_iff, Bool-cases,
}
use nebula_operator.Common.Effect.{M, Outcome, ok, >>=-eq-ok}
use nebula_operator.Nebula.World.{World, Call, get_pod, ask}
use nebula_operator.Nebula.Meta.{MetaServer}
use nebula_operator.Storaged.Api.{ApiServer, Pod}
use nebula_operator.Storaged.Leader.{StorageServer}
use nebula_operator.Storaged.Updater.{get_next_update_pod, judge_pod, is_pod_running}

eq_last : (n j : ℕ) → j < suc n → ¬ (j < n) → n ≡ j
eq_last n j h p = omega arith

module _ (api : ApiServer) (storage : StorageServer) (meta : MetaServer) (update_revision : ℕ) where
  -- The API server showed the pod with this revision.
  abbrev pub Shown : ℕ → Pod → Type 0
  Shown j pod = (before : List Call) × (api.pod (get_pod j ∷ before) ≡ ok pod)

  abbrev pub IsUpdated : ℕ → Type 0
  IsUpdated j =
      (pod : Pod) × Shown j pod
      × (pod.revision ≡ some update_revision)
      × (is_pod_running pod.pod_phase ≡ true)

  abbrev pub IsOutdated : ℕ → Type 0
  IsOutdated j =
      (pod : Pod) × (r : ℕ) × Shown j pod × (pod.revision ≡ some r) × (r ≢ update_revision)

  -- What the result says of the pods below `n`.
  abbrev pub Chosen : ℕ → Option ℕ → Type 0
  Chosen n none = (j : ℕ) → j < n → IsUpdated j
  Chosen n (some i) = (i < n) × IsOutdated i × ((j : ℕ) → i < j → j < n → IsUpdated j)

  Chosen-suc : (n : ℕ) (r : Option ℕ) → IsUpdated n → Chosen n r → Chosen (suc n) r
  Chosen-suc n none u c =
      λ j h. elim (dec_lt j n) [ yes p ↦ c j p | no p ↦ subst IsUpdated (eq_last n j h p) u ]
  Chosen-suc n (some i) u c = (
    omega (arith, c.0),
    c.1,
    (λ j h k. elim (dec_lt j n) [ yes p ↦ c.2 j h p | no p ↦ subst IsUpdated (eq_last n j k p) u ]),
  )

  -- A pod that stops the loop, or lets it pass.
  judge_pod_ok :
      (revision : Option ℕ) (runs : Bool) (n : ℕ) (below : M World (Option ℕ)) (w v : World)
      (r : Option ℕ)
      → judge_pod api storage meta update_revision revision runs n below w ≡ (ok r, v)
      → ((revision ≡ some update_revision) × (runs ≡ true) × (below w ≡ (ok r, v)))
        ⊎ ((x : ℕ) × (revision ≡ some x) × (x ≢ update_revision) × (r ≡ some n))
  unfolding judge_pod
  judge_pod_ok none runs n below w v r h = absurd (ground arith)
  judge_pod_ok (some x) false n below w v r h = elim (Bool-cases (x == update_revision)) [
    | inl e ↦ absurd (ground arith)
    | inr e ↦ inr (x, refl, ground arith, ground arith)
  ]
  judge_pod_ok (some x) true n below w v r h = elim (Bool-cases (x == update_revision)) [
    | inl e ↦ inl (ap some ((==_iff x update_revision).0 e), refl, rw e at h)
    | inr e ↦ inr (x, refl, ground arith, ground arith)
  ]

  -- `getNextUpdatePod` returns the highest ordinal below the replicas whose pod was shown without
  -- the update revision, all above it being shown running with that revision, or -1 if all are.
  pub get_next_update_pod_ok :
      (n : ℕ) (w v : World) (r : Option ℕ)
      → get_next_update_pod api storage meta update_revision n w ≡ (ok r, v)
      → Chosen n r
  unfolding get_next_update_pod
  get_next_update_pod_ok zero w v none h = λ j k. absurd (omega arith)
  get_next_update_pod_ok zero w v (some i) h = absurd (ground arith)
  get_next_update_pod_ok (suc n) w v r h =
      let (pod, u, e, k) =
        >>=-eq-ok (ask api.pod (get_pod n))
          (λ pod.
            judge_pod api storage meta update_revision pod.revision (is_pod_running pod.pod_phase) n
              (get_next_update_pod api storage meta update_revision n))
          w v r h in
      let shown = ap (λ (p : Outcome Pod × World). p.0) e in
      elim (judge_pod_ok pod.revision (is_pod_running pod.pod_phase) n _ u v r k) [
        | inl (f, a, rest) ↦
            Chosen-suc n r (pod, (w.calls, shown), f, a) (get_next_update_pod_ok n u v r rest)
        | inr (x, f, g, same) ↦
            subst (Chosen (suc n)) (sym same)
              (omega arith, (pod, x, (w.calls, shown), f, g), (λ j i k. absurd (omega arith)))
      ]
