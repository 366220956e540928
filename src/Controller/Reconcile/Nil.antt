-- ===== src/Controller/Reconcile/Nil.antt =====
-- pkg/controller/nebulacluster/nebula_cluster_control.go: what a reconciliation has done when it
-- returns no error.
use nebula_operator.Common.{
  ℕ, ◌≡◌, refl, sym, ap, ◌∙◌, ◌⊎◌, inl, inr, Bool, true, false, not, ◌&&◌, List, [], ◌∷◌, ◌++◌,
  arith, ◌==◌, if◌then◌else◌,
}
use mathlib.Core.Path.{subst}
use nebula_operator.Common.Effect.{
  M, Outcome, ok, err, panic, Error, reconcile, ◌>>=◌, ◌>>◌, attempt, >>=-eq-ok, attempt_ok,
}
use nebula_operator.Controller.Ready.{is_condition_ready, is_ready}
use nebula_operator.Controller.Reconcile.{
  Object, Run, Managers, set_version, list_version, set_cluster_version, get_object,
  waits_for_metad, waits_for_storaged, reconcile_rest, continue_unless, reconcile_storaged,
  reconcile_components, ensure_finalizer, update_cluster, error_list, observe, answer,
  update_nebula_cluster,
}

no_error : (old_errs : List Error) (e : Error) → ¬ (old_errs ++ e ∷ [] ≡ [])
no_error [] e h = ground arith
no_error (x ∷ xs) e h = ground arith

append_nil : (xs ys : List Error) → xs ++ ys ≡ [] → (xs ≡ []) × (ys ≡ [])
append_nil [] ys h = (refl, h)
append_nil (x ∷ xs) ys h = absurd (ground arith)

-- A panic is not caught.
attempt-ne-panic : {S : Type 0} (m : M S (Unit {0})) (s t : S) → ¬ (attempt m s ≡ (ok panic, t))
attempt-ne-panic {S} m s t = go (m s)
  where
    go : (r : Outcome (Unit {0}) × S) → ¬ (attempt (λ _. r) r.1 ≡ (ok panic, t))
    go (ok x, u) h = ground arith
    go (err e, u) h = ground arith
    go (panic, u) h = ground arith

module _ {Env : Type 0} (managers : Managers Env) where
  -- A restore is under way that has not reached this.
  abbrev pub Waits : Object → Bool → Type 0
  Waits nc reached =
      (nc.is_br_enabled ≡ true) × (nc.is_restore_name_not_empty ≡ true) × (reached ≡ false)

  -- The finalizer was there, or was added.
  abbrev pub Finalized : Run Env → Run Env → Type 0
  Finalized s t =
      ((s.nc.has_finalizer ≡ true) × (s ≡ t))
      ⊎ ((s.nc.has_finalizer ≡ false) × (managers.add_finalizer s ≡ (ok tt, t)))

  -- The version of the first meta host was recorded, and the client closed.
  abbrev pub Versioned : Run Env → Run Env → Type 0
  Versioned s t =
      (a : Run Env) × (b : Run Env) × (versions : List ℕ) × (managers.new_meta_client s
        ≡ (ok tt, a))
      × (managers.list_host_versions a ≡ (ok versions, b))
      × (t ≡ managers.disconnect (set_version managers versions b))

  -- What follows the storage component, each in the state that the one before left.
  abbrev pub RestInOrder : Run Env → Run Env → Type 0
  RestInOrder s t =
      (a : Run Env) × (b : Run Env) × (c : Run Env) × (d : Run Env) × (e : Run Env)
      × (managers.graphd s ≡ (ok tt, a))
      × Versioned a b
      × (managers.exporter b ≡ (ok tt, c))
      × (managers.console c ≡ (ok tt, d))
      × (managers.meta_reconciler d ≡ (ok tt, e))
      × (managers.reclaim e ≡ (ok tt, t))

  -- The phases of a reconciliation that returned, from its start: each ran in the state that the one before
  -- left, and no restore was waited for between them.
  abbrev pub InOrder : Run Env → Run Env → Type 0
  InOrder s t =
      (a : Run Env) × (b : Run Env) × (c : Run Env) × (d : Run Env) × Finalized s a
      × (managers.check_rbac a ≡ (ok tt, b))
      × (managers.metad b ≡ (ok tt, c))
      × ¬ (Waits c.nc c.nc.is_restore_metad_done)
      × (managers.storaged c ≡ (ok tt, d))
      × ¬ (Waits d.nc d.nc.is_restore_storaged_done)
      × RestInOrder d t

  ensure_finalizer_ok : (s t : Run Env) → ensure_finalizer managers s ≡ (ok tt, t) → Finalized s t
  ensure_finalizer_ok s t = go (s.nc.has_finalizer) refl
    where
      go :
          (b : Bool)
          → s.nc.has_finalizer ≡ b
          → (if b then (ok tt, s) else managers.add_finalizer s) ≡ (ok tt, t)
          → Finalized s t
      go true e h = inl (e, ap (λ (p : Outcome (Unit {0}) × Run Env). p.1) h)
      go false e h = inr (e, h)

  not_waiting :
      (nc : Object) (reached : Bool)
      → (nc.is_br_enabled && (nc.is_restore_name_not_empty && not reached)) ≡ false
      → ¬ (Waits nc reached)
  not_waiting nc reached h (a, b, c) = ground arith

  set_cluster_version_ok :
      (s t : Run Env) → set_cluster_version managers s ≡ (ok tt, t) → Versioned s t
  unfolding set_cluster_version
  set_cluster_version_ok s t h =
      let (_, a, e, k) =
        >>=-eq-ok managers.new_meta_client
          (λ _ s. ((list_version managers s).0, managers.disconnect (list_version managers s).1)) s
          t tt h in
      let inner : list_version managers a ≡ (ok tt, (list_version managers a).1) =
        (λ i. ((k i).0, (list_version managers a).1)) in
      let (versions, b, f, g) =
        >>=-eq-ok managers.list_host_versions
          (λ versions s. (ok tt, set_version managers versions s)) a (list_version managers a).1 tt
          inner in
      (
        a,
        b,
        versions,
        e,
        f,
        ap (λ (p : Outcome (Unit {0}) × Run Env). p.1) (sym k)
            ∙ ap (λ (p : Outcome (Unit {0}) × Run Env). managers.disconnect p.1) (sym g),
      )

  reconcile_rest_ok : (s t : Run Env) → reconcile_rest managers s ≡ (ok tt, t) → RestInOrder s t
  unfolding reconcile_rest
  reconcile_rest_ok s t h =
      let (_, a, e₁, h₁) = >>=-eq-ok managers.graphd _ s t tt h in
      let (_, b, e₂, h₂) = >>=-eq-ok (set_cluster_version managers) _ a t tt h₁ in
      let (_, c, e₃, h₃) = >>=-eq-ok managers.exporter _ b t tt h₂ in
      let (_, d, e₄, h₄) = >>=-eq-ok managers.console _ c t tt h₃ in
      let (_, e, e₅, h₅) = >>=-eq-ok managers.meta_reconciler (λ _. managers.reclaim) d t tt h₄ in
      (a, b, c, d, e, e₁, set_cluster_version_ok a b e₂, e₃, e₄, e₅, h₅)

  continue_unless_ok :
      (b : Bool) (m : M (Run Env) (Unit {0})) (s t : Run Env)
      → continue_unless managers b m s ≡ (ok tt, t)
      → (b ≡ false) × (m s ≡ (ok tt, t))
  continue_unless_ok true m s t h = absurd (ground arith)
  continue_unless_ok false m s t h = (refl, h)

  update_cluster_ok : (s t : Run Env) → update_cluster managers s ≡ (ok tt, t) → InOrder s t
  unfolding update_cluster reconcile_components reconcile_storaged
  update_cluster_ok s t h =
      let (_, s1, e1, h1) =
        >>=-eq-ok (ensure_finalizer managers) (λ _. reconcile_components managers) s t tt h in
      let (_, a, e2, h2) =
        >>=-eq-ok managers.check_rbac
          (λ _. do
            managers.metad
            nc ← get_object managers
            continue_unless managers (waits_for_metad managers nc) (reconcile_storaged managers))
          s1 t tt h1 in
      let (_, b, e3, h3) =
        >>=-eq-ok managers.metad
          (λ _. do
            nc ← get_object managers
            continue_unless managers (waits_for_metad managers nc) (reconcile_storaged managers))
          a t tt h2 in
      let (w, h4) =
        continue_unless_ok (waits_for_metad managers b.nc) (reconcile_storaged managers) b t h3 in
      let (_, c, e5, h5) =
        >>=-eq-ok managers.storaged
          (λ _. do
            nc ← get_object managers
            continue_unless managers (waits_for_storaged managers nc) (reconcile_rest managers))
          b t tt h4 in
      let (w', h6) =
        continue_unless_ok (waits_for_storaged managers c.nc) (reconcile_rest managers) c t h5 in
      (
        s1,
        a,
        b,
        c,
        ensure_finalizer_ok s s1 e1,
        e2,
        e3,
        not_waiting b.nc b.nc.is_restore_metad_done w,
        e5,
        not_waiting c.nc c.nc.is_restore_storaged_done w',
        reconcile_rest_ok c t h6,
      )

  -- The phases returned, the status was saved in the state that they left once it was observed, and
  -- the cluster is ready.
  Complete : ℕ → Run Env → Run Env → Run Env → Type 0
  Complete now s t v =
      InOrder s t
      × (managers.update_status (observe managers now t) ≡ (ok tt, v))
      × (is_condition_ready v.nc.cluster ≡ true)

  finished :
      (now : ℕ) (s t v : Run Env) (updated saved : Outcome (Unit {0}))
      → attempt (update_cluster managers) s ≡ (ok updated, t)
      → attempt managers.update_status (observe managers now t) ≡ (ok saved, v)
      → answer managers s.nc updated saved v ≡ []
      → Complete now s t v
  unfolding is_ready Complete
  finished now s t v updated saved h k n =
      let (none_left, ready) =
        chosen (managers.deep_equal v.nc s.nc)
          (v.nc.cluster.observed_generation == v.nc.cluster.generation)
          (is_condition_ready v.nc.cluster)
          (error_list managers updated ++ error_list managers saved) n in
      let (u, sv) =
        append_nil (error_list managers updated) (error_list managers saved) none_left in
      (
        update_cluster_ok s t (returned (update_cluster managers) s t updated h u),
        returned managers.update_status (observe managers now t) v saved k sv,
        ready,
      )
    where
      chosen :
          (d q r : Bool) (errs : List Error)
          → (if d && (q && r) then errs else if r then errs else errs ++ reconcile ∷ []) ≡ []
          → (errs ≡ []) × (r ≡ true)
      chosen true true true errs h = (h, refl)
      chosen true false true errs h = (h, refl)
      chosen false q true errs h = (h, refl)
      chosen true true false errs h = absurd (no_error errs reconcile h)
      chosen true false false errs h = absurd (no_error errs reconcile h)
      chosen false q false errs h = absurd (no_error errs reconcile h)

      returned :
          (m : M (Run Env) (Unit {0})) (s t : Run Env) (o : Outcome (Unit {0}))
          → attempt m s ≡ (ok o, t)
          → error_list managers o ≡ []
          → m s ≡ (ok tt, t)
      returned m s t (ok tt) h e = attempt_ok m s t tt h
      returned m s t (err x) h e = absurd (ground arith)
      returned m s t panic h e = absurd (attempt-ne-panic m s t h)

  -- A reconciliation that returns no error has, from its start and each in the state that the one before
  -- left: had or added the finalizer, checked the access, reconciled metad without then waiting for a
  -- restore, and storaged likewise, then graphd, recorded the version of the first meta host, and run the
  -- exporter, the console, the meta reconciler and the reclaimer; then it observed and saved the status,
  -- and the saved cluster has the condition Ready.
  pub update_nebula_cluster_nil :
      (now : ℕ) (s v : Run Env)
      → update_nebula_cluster managers now s ≡ (ok [], v)
      → (t : Run Env) × InOrder s t
        × (managers.update_status (observe managers now t) ≡ (ok tt, v))
        × (is_condition_ready v.nc.cluster ≡ true)
  unfolding update_nebula_cluster Complete
  update_nebula_cluster_nil now s v h =
      let (updated, t, e1, h1) =
        >>=-eq-ok (attempt (update_cluster managers))
          (λ updated. do
            λ s. (ok tt, observe managers now s)
            saved ← attempt managers.update_status
            λ v. (ok (answer managers s.nc updated saved v), v))
          s v [] h in
      let (saved, u, e2, h2) =
        >>=-eq-ok (attempt managers.update_status)
          (λ saved v. (ok (answer managers s.nc updated saved v), v)) (observe managers now t) v []
          h1 in
      let same : u ≡ v = ap (λ (p : Outcome (List Error) × Run Env). p.1) h2 in
      let done : Complete now s t v =
        subst (Complete now s t) same (finished now s t u updated saved e1 e2 (ap errors_of h2)) in
      (t, done.0, done.1, done.2)
    where
      errors_of : Outcome (List Error) × Run Env → List Error
      errors_of (ok errs, _) = errs
      errors_of (_, _) = reconcile ∷ []
