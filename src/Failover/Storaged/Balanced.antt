-- ===== src/Failover/Storaged/Balanced.antt =====
-- pkg/controller/component/storaged_failover.go: what a failover of the storage component that returns
-- no error has done.
use nebula_operator.Common.{ℕ, Option, none, List, ◌≡◌, refl, ap, sym, ◌∙◌, inl, inr, arith}
use mathlib.Core.Path.{subst}
use nebula_operator.Common.Effect.{Outcome, ok, err, panic, >>=-eq-ok}
use nebula_operator.Nebula.World.{World, Cluster, StoragedStatus, BalanceJob, modify, listed}
use nebula_operator.Nebula.Frame.{meta_balance_leader-Keeps}
use nebula_operator.Nebula.Meta.{MetaServer, meta_list_spaces, meta_balance_leader}
use nebula_operator.Storaged.Api.{ApiServer}
use nebula_operator.Storaged.Visit.{for_unlisted, for_unlisted_tied, listed-append_to_inv}
use nebula_operator.Storaged.Balancer.{add_balanced, balance_space}
use nebula_operator.Storaged.Balancer.Recorded.{FinishedJob}
use nebula_operator.Storaged.Scaler.{make_balanced}
use nebula_operator.Storaged.Scaler.Spaces.{AllBalanced, Adds, balance_space-Adds}
use nebula_operator.Storaged.Scaler.Done.{with_client_ok, balanced_from}
use nebula_operator.Failover.Hosts.{FailoverCall, FailoverServer, Failures}
use nebula_operator.Failover.Manager.{failover, storaged}
use nebula_operator.Failover.Manager.Moves.{failover-Moves}
use nebula_operator.Failover.Manager.Done.{Moves-ok}
use nebula_operator.Failover.Storaged.{
  StoragedFailures, balance_failed_space, balanced_after_failover, balance_data_of_spaces,
  balance_after_failover, balance_once, storaged_failover,
}

module _ (api : ApiServer) (meta : MetaServer) where
  balance_failed_space-Adds :
      (job : Option BalanceJob) (s : ℕ) (w v : World)
      → w.cluster.storaged.last_balance_job ≡ job
      → balance_failed_space api meta s w ≡ (ok tt, v)
      → Adds api meta (λ st. st.balanced_spaces) job s w v
  unfolding balance_failed_space
  balance_failed_space-Adds job s w v i h =
      let (_, u, e, k) = >>=-eq-ok (balance_space api meta s) _ w v tt h in
      let (_, u', e', k') =
        >>=-eq-ok (meta_balance_leader meta s) (λ _. modify (λ st. add_balanced st s)) u v tt k in
      let (finished, same_job, new) = balance_space-Adds api meta job s w u i e in
      let kept : u'.cluster ≡ u.cluster =
        sym (ap (λ (p : Outcome (Unit {0}) × World). p.1.cluster) e')
        ∙ meta_balance_leader-Keeps meta s u in
      let added : v.cluster.storaged ≡ add_balanced u.cluster.storaged s =
        sym (ap (λ (p : Outcome (Unit {0}) × World). p.1.cluster.storaged) k')
        ∙ ap (λ (c : Cluster). add_balanced c.storaged s) kept in
      (
        finished,
        ap (λ (st : StoragedStatus). st.last_balance_job) added ∙ same_job,
        λ a l.
            elim (listed-append_to_inv u.cluster.storaged.balanced_spaces s a
              (ap (λ (st : StoragedStatus). listed st.balanced_spaces a) (sym added) ∙ l)) [
                | inl x ↦ new a x
                | inr x ↦ inr x
              ],
      )

  balance_data_of_spaces_ok :
      (w v : World)
      → balance_data_of_spaces api meta w ≡ (ok tt, v)
      → ((u : World) × (v.cluster.storaged ≡ balanced_after_failover api meta u.cluster.storaged))
        × AllBalanced api meta w.cluster.storaged.balanced_spaces
            w.cluster.storaged.last_balance_job
  unfolding balance_data_of_spaces
  balance_data_of_spaces_ok w v h =
      let (spaces, u₁, e₁, h₁) = >>=-eq-ok (meta_list_spaces meta) _ w v tt h in
      let (_, u₂, e₂, h₂) = >>=-eq-ok (make_balanced api meta spaces) _ u₁ v tt h₁ in
      let (_, u₃, e₃, h₃) =
        >>=-eq-ok (for_unlisted (λ st. st.balanced_spaces) (balance_failed_space api meta) spaces)
          (λ _. modify (balanced_after_failover api meta)) u₂ v tt h₂ in
      let job = u₂.cluster.storaged.last_balance_job in
      let all =
        for_unlisted_tied (λ st. st.balanced_spaces) (balance_failed_space api meta)
          (λ u. u.cluster.storaged.last_balance_job ≡ job) (FinishedJob api meta job)
          (balance_failed_space-Adds job) spaces u₂ u₃ refl e₃ in
      (
        (u₃, sym (ap (λ (p : Outcome (Unit {0}) × World). p.1.cluster.storaged) h₃)),
        balanced_from api meta w u₁ u₂ spaces e₁ e₂ all,
      )

  pub balance_after_failover_ok :
      (w v : World)
      → balance_after_failover api meta w ≡ (ok tt, v)
      → (v.cluster.storaged.balanced_spaces ≡ none)
        × (v.cluster.storaged.last_balance_job ≡ none)
        × AllBalanced api meta w.cluster.storaged.balanced_spaces
            w.cluster.storaged.last_balance_job
  unfolding balance_after_failover
  balance_after_failover_ok w v h =
      let (u, x, opened, e, kept) = with_client_ok meta (balance_data_of_spaces api meta) w v h in
      let ((u', done), all) = balance_data_of_spaces_ok u x e in
      let final = ap (λ (c : Cluster). c.storaged) kept ∙ done in
      (
        ap (λ (st : StoragedStatus). st.balanced_spaces) final,
        ap (λ (st : StoragedStatus). st.last_balance_job) final,
        subst
            (λ (c : Cluster).
              AllBalanced api meta c.storaged.balanced_spaces c.storaged.last_balance_job)
            opened all,
      )

module _ (server : FailoverServer) (api : List FailoverCall → ApiServer)
    (meta : List FailoverCall → MetaServer) where
  once_ok :
      (w : World) (v : StoragedFailures) (r : Outcome (Unit {0}) × Failures)
      → balance_once server api meta w r ≡ (ok tt, v)
      → (r ≡ (ok tt, v.failures))
        × (balance_after_failover (api v.failures.calls) (meta v.failures.calls) w
            ≡ (ok tt, v.world))
  unfolding balance_once
  once_ok w v (ok a, u) h = (
    ap (λ (p : Outcome (Unit {0}) × StoragedFailures). (ok tt, p.1.failures)) h,
    ap
          (λ (p : Outcome (Unit {0}) × StoragedFailures).
            balance_after_failover (api p.1.failures.calls) (meta p.1.failures.calls) w)
          (sym h)
        ∙ (λ i. ((h i).0, (h i).1.world)),
  )
  once_ok w v (err e, u) h = absurd (ground arith)
  once_ok w v (panic, u) h = absurd (ground arith)

  -- A failover of the storage component that returns no error leaves the failure hosts as they are and
  -- clears the record of balanced spaces and the last balance job, and each space that the meta service
  -- listed was recorded as balanced at the start, or the balance job recorded at the start is for it and
  -- the meta service answered that it has finished.
  pub storaged_failover_ok :
      (w v : StoragedFailures)
      → storaged_failover server api meta w ≡ (ok tt, v)
      → (v.failures.failure_hosts ≡ w.failures.failure_hosts)
        × (v.world.cluster.storaged.balanced_spaces ≡ none)
        × (v.world.cluster.storaged.last_balance_job ≡ none)
        × AllBalanced
            (api v.failures.calls)
            (meta v.failures.calls)
            w.world.cluster.storaged.balanced_spaces
            w.world.cluster.storaged.last_balance_job
  unfolding storaged_failover
  storaged_failover_ok w v h =
      let (e, k) = once_ok w.world v (failover server storaged w.failures) h in
      let (spaces, job, all) =
        balance_after_failover_ok (api v.failures.calls) (meta v.failures.calls) w.world v.world
          k in
      (
        Moves-ok w.failures.failure_hosts tt v.failures (failover server storaged w.failures)
            (failover-Moves server storaged w.failures) e,
        spaces,
        job,
        all,
      )
