-- ===== src/Storaged/Updater/Leaders.antt =====
-- pkg/controller/component/storaged_updater.go: what `updateRunningPhase` has found when it returns.
use nebula_operator.Common.{
  ℕ, ◌≡◌, refl, ap, sym, ◌∙◌, ◌⊎◌, inl, inr, ◌+◌, ◌||◌, Bool, true, false, not, Option, none, some,
  List, arith, All, All-map, ltb, ◌==◌, Bool-cases, if◌then◌else◌,
}
use mathlib.Core.Path.{subst}
use nebula_operator.Common.Effect.{
  Outcome, ok, err, panic, reconcile, ◌>>=◌, ◌>>◌, fail, attempt, >>=-eq-ok, attempt_ok,
}
use nebula_operator.Nebula.World.{World, Phase, Cluster, listed, append_to, make_if_nil, modify}
use nebula_operator.Nebula.Meta.{MetaServer, is_leader_balanced, meta_balance_leader}
use nebula_operator.Nebula.Frame.{is_leader_balanced-Keeps}
use nebula_operator.Storaged.Api.{ApiServer, time_now}
use nebula_operator.Storaged.Visit.{
  for_unlisted_ok, for_unlisted_keeps, listed-append_to_self, listed-append_to_left,
  listed-append_to_inv, listed-make_if_nil,
}
use nebula_operator.Storaged.Visit
use nebula_operator.Storaged.Leader.{StorageServer}
use nebula_operator.Storaged.Scaler.{has_some}
use nebula_operator.Storaged.Updater.{
  check_balanced, since_last, balance_leader_of, balance_leader, update_running_phase, updated,
  set_balanced_time, balance_leader_interval,
}

module _ (api : ApiServer) (storage : StorageServer) (meta : MetaServer) where
  -- The meta service showed the leaders of the space spread evenly.
  abbrev pub FoundBalanced : ℕ → Type 0
  FoundBalanced s = (u : World) × (t : World) × (is_leader_balanced meta s u ≡ (ok true, t))

  abbrev Listed : World → ℕ → Type 0
  Listed w s = listed (w.cluster.storaged.balanced_spaces) s ≡ true

  -- A check that returns has found the space balanced, and added it to the list and nothing else.
  abbrev Checked : ℕ → World → World → Type 0
  Checked s w v =
      FoundBalanced s
      × (v.cluster.storaged.balanced_spaces ≡ append_to (w.cluster.storaged.balanced_spaces) s)

  check_balanced_ok :
      (s : ℕ) (o : Outcome Bool) (w v : World)
      → check_balanced api storage meta s o w ≡ (ok tt, v)
      → (o ≡ ok true)
        × (v.cluster.storaged.balanced_spaces ≡ append_to (w.cluster.storaged.balanced_spaces) s)
  unfolding check_balanced
  check_balanced_ok s panic w v h = absurd (ground arith)
  check_balanced_ok s (err e) w v h = absurd (ground arith)
  check_balanced_ok s (ok true) w v h =
      (refl, ap (λ (p : Outcome (Unit {0}) × World). p.1.cluster.storaged.balanced_spaces) (sym h))
  check_balanced_ok s (ok false) w v h =
      let (_, u, e, k) =
        >>=-eq-ok (meta_balance_leader meta s)
          (λ _. do now ← time_now api; modify (set_balanced_time (some now)); fail reconcile) w v tt
          h in
      absurd (ground arith)

  judged :
      (s : ℕ) (w v : World)
      → (do
        balanced ← attempt (is_leader_balanced meta s)
        check_balanced api storage meta s balanced)
          w
        ≡ (ok tt, v)
      → Checked s w v
  judged s w v h =
      let (o, u, e, k) =
        >>=-eq-ok (attempt (is_leader_balanced meta s)) (check_balanced api storage meta s) w v tt
          h in
      let (yes_balanced, f) = check_balanced_ok s o u v k in
      let found =
        attempt_ok (is_leader_balanced meta s) w u true
          (e ∙ ap (λ (o : Outcome Bool). (ok o, u)) yes_balanced) in
      let kept : u.cluster ≡ w.cluster =
        ap (λ (p : Outcome Bool × World). p.1.cluster) (sym found)
        ∙ is_leader_balanced-Keeps meta s w in
      ((w, u, found), f ∙ ap (λ (c : Cluster). append_to (c.storaged.balanced_spaces) s) kept)

  since_last_ok :
      (s : ℕ) (o : Option ℕ) (w v : World)
      → since_last api storage meta s o w ≡ (ok tt, v)
      → Checked s w v
  unfolding since_last
  since_last_ok s none w v h = absurd (ground arith)
  since_last_ok s (some last) w v h =
      let (now, u, e, k) =
        >>=-eq-ok (time_now api)
          (λ now. if ltb now (last + balance_leader_interval) then fail reconcile else do
            balanced ← attempt (is_leader_balanced meta s)
            check_balanced api storage meta s balanced)
          w v tt h in
      let kept : u.cluster ≡ w.cluster = ap (λ (p : Outcome ℕ × World). p.1.cluster) (sym e) in
      elim (Bool-cases (ltb now (last + balance_leader_interval))) [
        | inl y ↦ absurd (let k' = rw y at k in ground arith)
        | inr n ↦
            let (found, f) = judged s u v (rw n at k) in
            (found, f ∙ ap (λ (c : Cluster). append_to (c.storaged.balanced_spaces) s) kept)
      ]

  balance_leader_of_ok :
      (s : ℕ) (w v : World) → balance_leader_of api storage meta s w ≡ (ok tt, v) → Checked s w v
  unfolding balance_leader_of
  balance_leader_of_ok s w v h = since_last_ok s w.cluster.storaged.last_balanced_time w v h

  balance_leader_of-Lists :
      Visit.Lists (λ st. st.balanced_spaces) (balance_leader_of api storage meta)
  balance_leader_of-Lists s w v h =
      let (_, f) = balance_leader_of_ok s w v h in
      (
        ap (λ (o : Option (List ℕ)). listed o s) f
            ∙ listed-append_to_self (w.cluster.storaged.balanced_spaces) s,
        λ a k.
            ap (λ (o : Option (List ℕ)). listed o a) f
            ∙ listed-append_to_left (w.cluster.storaged.balanced_spaces) s a k,
      )

  -- Every space of the list was in it at the start, or was found balanced.
  Sound : World → World → Type 0
  Sound w u = (s : ℕ) → Listed u s → (Listed w s) ⊎ FoundBalanced s

  balance_leader_of-Sound :
      (w : World) (s : ℕ) (u v : World)
      → Sound w u
      → balance_leader_of api storage meta s u ≡ (ok tt, v)
      → Sound w v
  unfolding Sound
  balance_leader_of-Sound w s u v i h a l =
      let (found, f) = balance_leader_of_ok s u v h in
      elim (listed-append_to_inv (u.cluster.storaged.balanced_spaces) s a
        (ap (λ (o : Option (List ℕ)). listed o a) (sym f) ∙ l)) [
          | inl k ↦ i a k
          | inr e ↦ inr (subst FoundBalanced (sym e) found)
        ]

  pub balance_leader_ok :
      (spaces : List ℕ) (w v : World)
      → balance_leader api storage meta spaces w ≡ (ok tt, v)
      → All (λ s. (Listed w s) ⊎ FoundBalanced s) spaces
  unfolding balance_leader Sound
  balance_leader_ok spaces w v h =
      let (_, u, e, k) =
        >>=-eq-ok (modify (λ st. record st { balanced_spaces = make_if_nil st.balanced_spaces }))
          (λ _.
            Visit.for_unlisted (λ st. st.balanced_spaces) (balance_leader_of api storage meta)
              spaces)
          w v tt h in
      let begun =
        ap (λ (p : Outcome (Unit {0}) × World). p.1.cluster.storaged.balanced_spaces) (sym e) in
      let sound =
        for_unlisted_keeps (λ st. st.balanced_spaces) (balance_leader_of api storage meta) (Sound w)
          (balance_leader_of-Sound w) spaces u v
          (λ s l. inl (
            listed-make_if_nil (w.cluster.storaged.balanced_spaces) s
              (ap (λ (o : Option (List ℕ)). listed o s) (sym begun) ∙ l)))
          k in
      let (all, _) =
        for_unlisted_ok (λ st. st.balanced_spaces) (balance_leader_of api storage meta)
          balance_leader_of-Lists spaces u v k in
      All-map _ _ spaces (λ s l. sound s l) all

  -- When `update_running_phase` returns, the phase is Running; if the cluster has spaces and more
  -- than one replica, then every space was listed as balanced when it began, or the meta service
  -- showed the space's leaders balanced, and the list is emptied.
  pub update_running_phase_ok :
      (spaces : List ℕ) (w v : World)
      → update_running_phase api storage meta spaces w ≡ (ok tt, v)
      → (v.cluster.storaged.phase ≡ Phase.running)
        × ((not (has_some spaces) || w.cluster.replicas == 1 ≡ true)
            ⊎ (All (λ s. (Listed w s) ⊎ FoundBalanced s) spaces
                × (v.cluster.storaged.balanced_spaces ≡ none)))
  unfolding update_running_phase
  update_running_phase_ok spaces w v h =
      elim (Bool-cases (not (has_some spaces) || w.cluster.replicas == 1)) [
        | inl y ↦ (
          ap (λ (p : Outcome (Unit {0}) × World). p.1.cluster.storaged.phase) (sym (rw y at h)),
          inl y,
        )
        | inr n ↦
            let (_, u, e, k) =
              >>=-eq-ok (balance_leader api storage meta spaces)
                (λ _. modify (updated api storage meta)) w v tt (rw n at h) in
            (
              ap (λ (p : Outcome (Unit {0}) × World). p.1.cluster.storaged.phase) (sym k),
              inr (
                balance_leader_ok spaces w u e,
                ap (λ (p : Outcome (Unit {0}) × World). p.1.cluster.storaged.balanced_spaces)
                    (sym k),
              ),
            )
      ]
