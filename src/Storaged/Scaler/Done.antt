-- ===== src/Storaged/Scaler/Done.antt =====
-- pkg/controller/component/storaged_scaler.go: what a scaling that returns nil has done.
use nebula_operator.Common.{
  ℕ, ◌-◌, ◌<◌, ◌≡◌, refl, ap, sym, ◌∙◌, Bool, true, false, not, Option, none, List, arith, ltb,
  if◌then◌else◌,
}
use mathlib.Core.Path.{subst}
use nebula_operator.Common.Effect.{
  M, Outcome, ok, err, panic, then_run, ◌>>=◌, ◌>>◌, return, fail, reconcile, >>=-eq-ok,
}
use nebula_operator.Nebula.World.{
  World, Cluster, StoragedStatus, running, scale_in, scale_out, BalanceJob, connect, list_spaces,
  ask, modify,
}
use nebula_operator.Nebula.Meta.{MetaServer, meta_list_spaces, meta_drop_hosts}
use nebula_operator.Nebula.Jobs.Errors.{Answered, retry_on_error-Answered}
use nebula_operator.Storaged.Api.{ApiServer, save_status, closing, with_client}
use nebula_operator.Nebula.Frame.{meta_list_spaces-Keeps}
use nebula_operator.Storaged.Scaler.Spaces.{
  AllDone, AllBalanced, balance_spaces_ok, remove_spaces_ok, made_done, make_balanced_ok,
  make_removed_ok,
}
use nebula_operator.Storaged.Scaler.Hosts.{Collected, collect_hosts_ok}
use nebula_operator.Storaged.Scaler.{
  set_phase, scaled_out, scaled_in, is_storaged_created_pod_ready, balance_spaces, make_balanced,
  scale_out_data, scale_out_recorded, scale_out_all, make_removed, collect_hosts, remove_spaces,
  drop_replicas, balance_leaders, pvc_mark, pvcs_deleted, ordinal_pvc_names, scale_in_data,
  scale_in_all,
}

-- The object after `modify f` and a saved status.
saved :
    (api : ApiServer) (f : StoragedStatus → StoragedStatus) (w v : World)
    → (modify f >> save_status api) w ≡ (ok tt, v)
    → v.cluster.storaged ≡ f w.cluster.storaged
saved api f w v h = sym (ap (λ (p : Outcome (Unit {0}) × World). p.1.cluster.storaged) h)

module _ (meta : MetaServer) where
  -- A body run with a client returns from the object that was there before the connection.
  pub with_client_ok :
      (body : M World (Unit {0})) (w v : World)
      → with_client meta body w ≡ (ok tt, v)
      → (u x : World) × (u.cluster ≡ w.cluster) × (body u ≡ (ok tt, x)) × (v.cluster ≡ x.cluster)
  with_client_ok body w v h =
      let (_, u, e, k) = >>=-eq-ok (ask meta.connected connect) (λ _. closing meta body) w v tt h in
      (
        u,
        (body u).1,
        sym (ap (λ (p : Outcome (Unit {0}) × World). p.1.cluster) e),
        (λ i. ((k i).0, (body u).1)),
        sym (ap (λ (p : Outcome (Unit {0}) × World). p.1.cluster) k),
      )

  -- The spaces that the meta service answered.
  pub listed_spaces :
      (w v : World) (spaces : List ℕ)
      → meta_list_spaces meta w ≡ (ok spaces, v)
      → Answered meta meta.spaces list_spaces spaces
  unfolding meta_list_spaces
  listed_spaces w v spaces h = retry_on_error-Answered meta meta.spaces list_spaces w v spaces h

module _ (api : ApiServer) (meta : MetaServer) where
  -- What a scale-in to fewer replicas has dropped: each space that the meta service listed was in the
  -- list of removed ones, or the balance job is for it and has finished, and the meta service accepted to
  -- drop the hosts of the surplus pods that were there.
  abbrev pub Dropped : ℕ → ℕ → Option (List ℕ) → Option BalanceJob → Type 0
  Dropped old_replicas new_replicas removed_spaces last_balance_job =
      ((spaces : List ℕ) × Answered meta meta.spaces list_spaces spaces
        × AllDone api meta removed_spaces last_balance_job spaces)
      × (hosts : List ℕ) × Collected api meta (old_replicas - new_replicas) new_replicas hosts
      × (u u' : World) × (meta_drop_hosts meta hosts u ≡ (ok tt, u'))

  drop_replicas_ok :
      (fewer : Bool) (o n : ℕ) (spaces : List ℕ) (w v : World)
      → Answered meta meta.spaces list_spaces spaces
      → fewer ≡ true
      → (if fewer
            then (do
              hosts ← collect_hosts api meta (o - n) n
              remove_spaces api meta hosts spaces
              meta_drop_hosts meta hosts)
            else return tt)
          w
        ≡ (ok tt, v)
      → (AllDone api meta w.cluster.storaged.removed_spaces w.cluster.storaged.last_balance_job
          spaces)
        × ((hosts : List ℕ) × Collected api meta (o - n) n hosts
            × (u u' : World) × (meta_drop_hosts meta hosts u ≡ (ok tt, u')))
  drop_replicas_ok false o n spaces w v answered f h = absurd (ground arith)
  drop_replicas_ok true o n spaces w v answered f h =
      let (hosts, u, e, k) = >>=-eq-ok (collect_hosts api meta (o - n) n) _ w v tt h in
      let (_, u', e', k') =
        >>=-eq-ok (remove_spaces api meta hosts spaces) (λ _. meta_drop_hosts meta hosts) u v tt
          k in
      let (all_hosts, kept) = collect_hosts_ok api meta (o - n) n hosts w u e in
      (
        subst
            (λ (c : Cluster).
              AllDone api meta c.storaged.removed_spaces c.storaged.last_balance_job spaces)
            kept (remove_spaces_ok api meta hosts spaces u u' e'),
        (hosts, all_hosts, u', v, k'),
      )

  last_step :
      (deleted : Bool) (w v : World)
      → (if not deleted then fail reconcile else (do modify scaled_in; save_status api)) w
        ≡ (ok tt, v)
      → v.cluster.storaged ≡ scaled_in w.cluster.storaged
  last_step true w v h = saved api scaled_in w v h
  last_step false w v h = absurd (ground arith)

  -- The status of the object stays when its spaces are listed.
  list_spaces_kept :
      (w u : World) (spaces : List ℕ)
      → meta_list_spaces meta w ≡ (ok spaces, u)
      → u.cluster ≡ w.cluster
  list_spaces_kept w u spaces e =
      ap (λ (p : Outcome (List ℕ) × World). p.1.cluster) (sym e) ∙ meta_list_spaces-Keeps meta w

  scale_in_data_ok :
      (old_replicas new_replicas : ℕ) (w v : World)
      → scale_in_data api meta old_replicas new_replicas w ≡ (ok tt, v)
      → ((u : World) × (v.cluster.storaged ≡ scaled_in u.cluster.storaged))
        × (new_replicas < old_replicas
            → Dropped old_replicas new_replicas w.cluster.storaged.removed_spaces
                w.cluster.storaged.last_balance_job)
  unfolding scale_in_data drop_replicas
  scale_in_data_ok o n w v h =
      let (spaces, u₁, e₁, h₁) = >>=-eq-ok (meta_list_spaces meta) _ w v tt h in
      let (_, u₂, e₂, h₂) = >>=-eq-ok (make_removed api meta spaces) _ u₁ v tt h₁ in
      let (_, u₃, e₃, h₃) = >>=-eq-ok (drop_replicas api meta o n spaces) _ u₂ v tt h₂ in
      let (_, u₄, e₄, h₄) = >>=-eq-ok (balance_leaders api meta spaces) _ u₃ v tt h₃ in
      let (_, u₅, e₅, h₅) = >>=-eq-ok (pvc_mark api meta (o - n) n) _ u₄ v tt h₄ in
      let (deleted, u₆, e₆, h₆) =
        >>=-eq-ok (pvcs_deleted api meta (ordinal_pvc_names n)) _ u₅ v tt h₅ in
      let answered = listed_spaces meta w u₁ spaces e₁ in
      (
        (u₆, last_step deleted u₆ v h₆),
        λ fewer.
            let (all, (hosts, all_hosts, x, x', accepted)) =
              drop_replicas_ok (ltb n o) o n spaces u₂ u₃ answered (ground arith) e₃ in
            let (_, removed, same_job) = make_removed_ok api meta spaces u₁ u₂ e₂ in
            let before =
              made_done api meta u₁.cluster.storaged.removed_spaces
                u₂.cluster.storaged.removed_spaces u₁.cluster.storaged.last_balance_job
                u₂.cluster.storaged.last_balance_job spaces removed same_job all in
            (
              (
                spaces,
                answered,
                subst
                    (λ (c : Cluster).
                      AllDone api meta c.storaged.removed_spaces c.storaged.last_balance_job spaces)
                    (list_spaces_kept w u₁ spaces e₁) before,
              ),
              hosts,
              all_hosts,
              x,
              x',
              accepted,
            ),
      )

  -- A scale-in that returns nil leaves the phase Running with nothing recorded as balanced or
  -- removed and no balance job. If it made the component smaller, each space that the meta service
  -- listed was recorded as removed at the start, or the balance job recorded at the start is for it
  -- and the meta service answered that it has finished, and the meta service accepted to drop the
  -- hosts of exactly those surplus pods that the API server answered and that were not pending.
  pub scale_in_all_ok :
      (old_replicas new_replicas : ℕ) (w v : World)
      → scale_in_all api meta old_replicas new_replicas w ≡ (ok tt, v)
      → (v.cluster.storaged.phase ≡ running)
        × (v.cluster.storaged.balanced_spaces ≡ none)
        × (v.cluster.storaged.removed_spaces ≡ none)
        × (v.cluster.storaged.last_balance_job ≡ none)
        × (new_replicas < old_replicas
            → Dropped old_replicas new_replicas w.cluster.storaged.removed_spaces
                w.cluster.storaged.last_balance_job)
  unfolding scale_in_all
  scale_in_all_ok o n w v h =
      let (_, u₁, e₁, h₁) =
        >>=-eq-ok (modify (set_phase scale_in))
          (λ _. save_status api >> with_client meta (scale_in_data api meta o n)) w v tt h in
      let (_, u₂, e₂, h₂) =
        >>=-eq-ok (save_status api) (λ _. with_client meta (scale_in_data api meta o n)) u₁ v tt
          h₁ in
      let (u₃, x, opened, e₃, kept) = with_client_ok meta (scale_in_data api meta o n) u₂ v h₂ in
      let start : u₃.cluster
          ≡ record (w.cluster) { storaged = set_phase scale_in w.cluster.storaged } =
        opened
        ∙ (ap (λ (p : Outcome (Unit {0}) × World). p.1.cluster) (sym e₂)
            ∙ ap (λ (p : Outcome (Unit {0}) × World). p.1.cluster) (sym e₁)) in
      let ((u₄, done), dropped) = scale_in_data_ok o n u₃ x e₃ in
      let final = ap (λ (c : Cluster). c.storaged) kept ∙ done in
      (
        ap (λ (st : StoragedStatus). st.phase) final,
        ap (λ (st : StoragedStatus). st.balanced_spaces) final,
        ap (λ (st : StoragedStatus). st.removed_spaces) final,
        ap (λ (st : StoragedStatus). st.last_balance_job) final,
        λ fewer.
            subst
              (λ (c : Cluster). Dropped o n c.storaged.removed_spaces c.storaged.last_balance_job)
              start (dropped fewer),
      )

  -- What is done after the spaces are listed and their list is made, is done from the start.
  pub balanced_from :
      (w u₁ u₂ : World) (spaces : List ℕ)
      → meta_list_spaces meta w ≡ (ok spaces, u₁)
      → make_balanced api meta spaces u₁ ≡ (ok tt, u₂)
      → AllDone api meta u₂.cluster.storaged.balanced_spaces u₂.cluster.storaged.last_balance_job
          spaces
      → AllBalanced api meta w.cluster.storaged.balanced_spaces w.cluster.storaged.last_balance_job
  balanced_from w u₁ u₂ spaces e₁ e₂ all =
      let (balanced, _, same_job) = make_balanced_ok api meta spaces u₁ u₂ e₂ in
      (
        spaces,
        listed_spaces meta w u₁ spaces e₁,
        subst
            (λ (c : Cluster).
              AllDone api meta c.storaged.balanced_spaces c.storaged.last_balance_job spaces)
            (list_spaces_kept w u₁ spaces e₁)
            (made_done api meta u₁.cluster.storaged.balanced_spaces
              u₂.cluster.storaged.balanced_spaces u₁.cluster.storaged.last_balance_job
              u₂.cluster.storaged.last_balance_job spaces balanced same_job all),
      )

  scale_out_data_ok :
      (w v : World)
      → scale_out_data api meta w ≡ (ok tt, v)
      → ((u : World) × (v.cluster.storaged ≡ scaled_out u.cluster.storaged))
        × AllBalanced api meta w.cluster.storaged.balanced_spaces
            w.cluster.storaged.last_balance_job
  unfolding scale_out_data
  scale_out_data_ok w v h =
      let (spaces, u₁, e₁, h₁) = >>=-eq-ok (meta_list_spaces meta) _ w v tt h in
      let (_, u₂, e₂, h₂) = >>=-eq-ok (make_balanced api meta spaces) _ u₁ v tt h₁ in
      let (_, u₃, e₃, h₃) =
        >>=-eq-ok (balance_spaces api meta spaces) (λ _. modify scaled_out >> save_status api) u₂ v
          tt h₂ in
      (
        (u₃, saved api scaled_out u₃ v h₃),
        balanced_from w u₁ u₂ spaces e₁ e₂ (balance_spaces_ok api meta spaces u₂ u₃ e₃),
      )

  -- How a scale-out that returns nil has ended.
  pub data ScaledOut (ready auto : Bool) (balanced_spaces : Option (List ℕ))
      (last_balance_job : Option BalanceJob) (v : World) : Type 0 where
    waits :
        ready ≡ false
        → v.cluster.storaged.phase ≡ scale_out
        → ScaledOut ready auto balanced_spaces last_balance_job v
    leaves_data :
        ready ≡ true
        → auto ≡ false
        → v.cluster.storaged.phase ≡ running
        → ScaledOut ready auto balanced_spaces last_balance_job v
    balances :
        ready ≡ true
        → auto ≡ true
        → v.cluster.storaged.phase ≡ running
        → v.cluster.storaged.balanced_spaces ≡ none
        → v.cluster.storaged.last_balance_job ≡ none
        → AllBalanced api meta balanced_spaces last_balance_job
        → ScaledOut ready auto balanced_spaces last_balance_job v

  scale_out_rest :
      (ready auto : Bool) (w v : World)
      → w.cluster.storaged.phase ≡ scale_out
      → (if not ready
            then return tt
            else if not auto
            then modify (set_phase running)
            else with_client meta (scale_out_data api meta))
          w
        ≡ (ok tt, v)
      → ScaledOut ready auto w.cluster.storaged.balanced_spaces w.cluster.storaged.last_balance_job
          v
  scale_out_rest false auto w v p h =
      waits refl (ap (λ (q : Outcome (Unit {0}) × World). q.1.cluster.storaged.phase) (sym h) ∙ p)
  scale_out_rest true false w v p h =
      leaves_data refl refl
        (ap (λ (q : Outcome (Unit {0}) × World). q.1.cluster.storaged.phase) (sym h))
  scale_out_rest true true w v p h =
      let (u, x, opened, e, kept) = with_client_ok meta (scale_out_data api meta) w v h in
      let ((u', done), all) = scale_out_data_ok u x e in
      let final = ap (λ (c : Cluster). c.storaged) kept ∙ done in
      balances refl refl (ap (λ (st : StoragedStatus). st.phase) final)
        (ap (λ (st : StoragedStatus). st.balanced_spaces) final)
        (ap (λ (st : StoragedStatus). st.last_balance_job) final)
        (subst
          (λ (c : Cluster).
            AllBalanced api meta c.storaged.balanced_spaces c.storaged.last_balance_job)
          opened all)

  scale_out_saved :
      (a : Outcome (Unit {0})) (w u v : World)
      → u.cluster ≡ record (w.cluster) { storaged = set_phase scale_out w.cluster.storaged }
      → then_run (a, u) (λ _. scale_out_recorded api meta) ≡ (ok tt, v)
      → ScaledOut
          (is_storaged_created_pod_ready w.cluster)
          w.cluster.auto_balance_enabled
          w.cluster.storaged.balanced_spaces
          w.cluster.storaged.last_balance_job
          v
  unfolding scale_out_recorded is_storaged_created_pod_ready
  scale_out_saved (ok tt) w u v e h =
      subst
        (λ (c : Cluster).
          ScaledOut (is_storaged_created_pod_ready c) c.auto_balance_enabled
            c.storaged.balanced_spaces c.storaged.last_balance_job v)
        e
        (scale_out_rest (is_storaged_created_pod_ready u.cluster) u.cluster.auto_balance_enabled u v
          (ap (λ (c : Cluster). c.storaged.phase) e) h)
  scale_out_saved (err x) w u v e h = absurd (ground arith)
  scale_out_saved panic w u v e h = absurd (ground arith)

  -- A scale-out that returns nil stays in the phase ScaleOut while the replicas are not all ready,
  -- ends in Running without touching the data where automatic balancing is off, and otherwise
  -- ends in Running, with the records cleared, where each space that the meta service listed was
  -- recorded as balanced at the start, or the balance job recorded at the start is for it and the meta
  -- service answered that it has finished.
  pub scale_out_all_ok :
      (w v : World)
      → scale_out_all api meta w ≡ (ok tt, v)
      → ScaledOut
          (is_storaged_created_pod_ready w.cluster)
          w.cluster.auto_balance_enabled
          w.cluster.storaged.balanced_spaces
          w.cluster.storaged.last_balance_job
          v
  unfolding scale_out_all
  scale_out_all_ok w v h = scale_out_saved _ w _ v refl h
