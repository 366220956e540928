-- ===== src/Storaged/Balancer/Recorded.antt =====
-- pkg/controller/component/data_balancer.go: `balanceSpace` and `removeHost` return nil only once
-- the job of the space has finished, and then record the space.
use nebula_operator.Common.{
  ℕ, ◌≡◌, ◌≢◌, refl, sym, ap, ◌∙◌, inl, inr, Bool, true, false, Option, none, some, List, ◌∷◌,
  arith, ◌==◌, ==_iff, Bool-cases, if◌then◌else◌,
}
use nebula_operator.Common.Effect.{
  M, Outcome, ok, err, panic, Error, not_found, reconcile, job_failed, other, ◌>>=◌, ◌>>◌, attempt,
  then_run, >>=-eq-ok, attempt_ok,
}
use nebula_operator.Nebula.World.{World, Cluster, BalanceJob, StoragedStatus, modify}
use nebula_operator.Nebula.Meta.{
  MetaServer, AdminJobResult, JobStatus, finished, meta_balance_leader,
}
use nebula_operator.Nebula.Frame.{meta_balance_leader-Keeps}
use nebula_operator.Nebula.Jobs.{
  balance_data, balance_data_in_zone, meta_remove_host, remove_host_in_zone,
  recover_data_balance_job, recover_in_zone_balance_job, balance_status,
}
use nebula_operator.Nebula.Jobs.Errors.{
  run_job_err, recover_err, Answered, status_call, balance_status-finished,
}
use nebula_operator.Nebula.Jobs.Frame.{balance_status-Keeps}
use nebula_operator.Storaged.Api.{ApiServer, save_status}
use nebula_operator.Storaged.Balancer.{
  add_balanced, add_removed, recover_job, followed, started, follow_or_start, start_balance,
  record_balanced, balance_space, start_removal, record_removed, remove_host,
}

module _ (api : ApiServer) (meta : MetaServer) where
  recover_by_err :
      (zoned : Bool) (job : BalanceJob) (w v : World)
      → (if zoned
            then recover_in_zone_balance_job meta job.job_id job.space_id
            else recover_data_balance_job meta job.job_id job.space_id)
          w
        ≢ (ok tt, v)
  recover_by_err true job w v = (recover_err meta job.job_id job.space_id w v).1
  recover_by_err false job w v = (recover_err meta job.job_id job.space_id w v).0

  recover_job_err : (job : BalanceJob) (w v : World) → recover_job api meta job w ≢ (ok tt, v)
  unfolding recover_job
  recover_job_err job w v = recover_by_err w.cluster.zone_enabled job w v

  followed_ok :
      (job : BalanceJob) (done : M World (Unit {0})) (r : Outcome (Unit {0})) (w v : World)
      → followed api meta job done r w ≡ (ok tt, v)
      → (r ≡ ok tt) × (done w ≡ (ok tt, v))
  unfolding followed
  followed_ok job done (ok tt) w v h = (refl, h)
  followed_ok job done (err not_found) w v h = absurd (ground arith)
  followed_ok job done (err reconcile) w v h = absurd (ground arith)
  followed_ok job done (err job_failed) w v h = absurd (recover_job_err job w v h)
  followed_ok job done (err (other n)) w v h = absurd (ground arith)
  followed_ok job done panic w v h = absurd (ground arith)

  started_err :
      (s : ℕ) (r : Outcome (ℕ × Option Error) × World) (v : World)
      → ((n : ℕ) (u : World) → r ≢ (ok (n, none), u))
      → then_run r (started api meta s) ≢ (ok tt, v)
  unfolding started
  started_err s (ok (n, none), u) v k h = k n u refl
  started_err s (ok (n, some e), u) v k h = ground arith
  started_err s (err e, u) v k h = ground arith
  started_err s (panic, u) v k h = ground arith

  -- No start of a job ends without an error, in zones or across them.
  started_job_err :
      (s : ℕ) (zoned : Bool) (m n : M World (ℕ × Option Error)) (w v : World)
      → ((k : ℕ) (u : World) → m w ≢ (ok (k, none), u))
      → ((k : ℕ) (u : World) → n w ≢ (ok (k, none), u))
      → ((if zoned then m else n) >>= started api meta s) w ≢ (ok tt, v)
  started_job_err s true m n w v h k = started_err s (m w) v h
  started_job_err s false m n w v h k = started_err s (n w) v k

  start_balance_err : (s : ℕ) (w v : World) → start_balance api meta s w ≢ (ok tt, v)
  unfolding start_balance balance_data balance_data_in_zone
  start_balance_err s w v =
      started_job_err s w.cluster.zone_enabled (balance_data_in_zone meta s) (balance_data meta s) w
        v (λ n u. run_job_err meta _ w u n) (λ n u. run_job_err meta _ w u n)

  start_removal_err :
      (s : ℕ) (hosts : List ℕ) (w v : World) → start_removal api meta s hosts w ≢ (ok tt, v)
  unfolding start_removal meta_remove_host remove_host_in_zone
  start_removal_err s hosts w v =
      started_job_err s w.cluster.zone_enabled (remove_host_in_zone meta s hosts)
        (meta_remove_host meta s hosts) w v (λ n u. run_job_err meta _ w u n)
        (λ n u. run_job_err meta _ w u n)

  -- This balance job is for the space, and has finished.
  abbrev pub FinishedJob : Option BalanceJob → ℕ → Type 0
  FinishedJob last_balance_job s =
      (job : BalanceJob) × (last_balance_job ≡ some job)
      × (job.space_id ≡ s)
      × (result : AdminJobResult) × (rest : List JobStatus) × (result.job_desc ≡ finished ∷ rest)
      × Answered meta meta.job (status_call meta job.job_id job.space_id) result

  -- The last balance job of the object is for the space, and has finished.
  abbrev pub Finished : World → ℕ → Type 0
  Finished w s = FinishedJob w.cluster.storaged.last_balance_job s

  followed_job_ok :
      (s : ℕ) (job : BalanceJob) (done : M World (Unit {0})) (w v : World)
      → w.cluster.storaged.last_balance_job ≡ some job
      → job.space_id ≡ s
      → (attempt (balance_status meta job.job_id job.space_id) >>= followed api meta job done) w
        ≡ (ok tt, v)
      → Finished w s × ((u : World) × (u.cluster ≡ w.cluster) × (done u ≡ (ok tt, v)))
  followed_job_ok s job done w v e f h =
      let (r, u, a, k) =
        >>=-eq-ok (attempt (balance_status meta job.job_id job.space_id))
          (followed api meta job done) w v tt h in
      let (g, d) = followed_ok job done r u v k in
      let b =
        attempt_ok (balance_status meta job.job_id job.space_id) w u tt
          (a ∙ ap (λ (x : Outcome (Unit {0})). (Outcome.ok x, u)) g) in
      let (result, rest, i, answered) =
        balance_status-finished meta job.job_id job.space_id w u b in
      (
        (job, e, f, result, rest, i, answered),
        (
          u,
          sym (ap (λ (p : Outcome (Unit {0}) × World). p.1.cluster) b)
              ∙ balance_status-Keeps meta job.job_id job.space_id w,
          d,
        ),
      )

  -- Both functions look at the last job and then start one or follow it.
  follow_or_start_ok :
      (s : ℕ) (o : Option BalanceJob) (start : M World (Unit {0}))
      (done : BalanceJob → M World (Unit {0})) (w v : World)
      → w.cluster.storaged.last_balance_job ≡ o
      → start w ≢ (ok tt, v)
      → follow_or_start api meta s start done o w ≡ (ok tt, v)
      → Finished w s
        × ((job : BalanceJob) × (u : World) × (job.space_id ≡ s)
            × (u.cluster ≡ w.cluster)
            × (done job u ≡ (ok tt, v)))
  unfolding follow_or_start
  follow_or_start_ok s none start done w v e n h = absurd (n h)
  follow_or_start_ok s (some job) start done w v e n h = elim (Bool-cases (job.space_id == s)) [
    | inl f ↦
        let (fin, (u, k, d)) =
          followed_job_ok s job (done job) w v e ((==_iff job.space_id s).0 f) (rw f at h) in
        (fin, (job, u, (==_iff job.space_id s).0 f, k, d))
    | inr f ↦ absurd (n (rw f at h))
  ]

  -- A call that only saves the status leaves it as it is.
  save_ok :
      (f : StoragedStatus → StoragedStatus) (w v : World)
      → (modify f >> save_status api) w ≡ (ok tt, v)
      → v.cluster.storaged ≡ f w.cluster.storaged
  save_ok f w v h = sym (ap (λ (p : Outcome (Unit {0}) × World). p.1.cluster.storaged) h)

  -- `balanceSpace` returns nil only if the last balance job recorded in the status was for this
  -- space and the meta service answered that it has finished; then the space is added to the
  -- balanced ones, and nothing else of the status changes.
  pub balance_space_ok :
      (s : ℕ) (w v : World)
      → balance_space api meta s w ≡ (ok tt, v)
      → Finished w s × (v.cluster.storaged ≡ add_balanced w.cluster.storaged s)
  unfolding balance_space record_balanced
  balance_space_ok s w v h =
      let (fin, (job, u, f, k, d)) =
        follow_or_start_ok s w.cluster.storaged.last_balance_job (start_balance api meta s)
          (record_balanced api meta) w v refl (start_balance_err s w v) h in
      let (_, u', b, d') = >>=-eq-ok (meta_balance_leader meta job.space_id) _ u v tt d in
      let kept =
        sym (ap (λ (p : Outcome (Unit {0}) × World). p.1.cluster) b)
        ∙ (meta_balance_leader-Keeps meta job.space_id u ∙ k) in
      (
        fin,
        save_ok (λ st. add_balanced st job.space_id) u' v d'
            ∙ (ap (λ (c : Cluster). add_balanced c.storaged job.space_id) kept
                ∙ ap (add_balanced w.cluster.storaged) f),
      )

  -- `removeHost` returns nil only if the last balance job recorded in the status was for this space
  -- and the meta service answered that it has finished; then the space is added to the removed
  -- ones, and nothing else of the status changes.
  pub remove_host_ok :
      (s : ℕ) (hosts : List ℕ) (w v : World)
      → remove_host api meta s hosts w ≡ (ok tt, v)
      → Finished w s × (v.cluster.storaged ≡ add_removed w.cluster.storaged s)
  unfolding remove_host record_removed
  remove_host_ok s hosts w v h =
      let (fin, (job, u, f, k, d)) =
        follow_or_start_ok s w.cluster.storaged.last_balance_job (start_removal api meta s hosts)
          (record_removed api meta) w v refl (start_removal_err s hosts w v) h in
      (
        fin,
        save_ok (λ st. add_removed st job.space_id) u v d
            ∙ (ap (λ (c : Cluster). add_removed c.storaged job.space_id) k
                ∙ ap (add_removed w.cluster.storaged) f),
      )
