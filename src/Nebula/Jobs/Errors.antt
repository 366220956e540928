-- ===== src/Nebula/Jobs/Errors.antt =====
-- pkg/nebula/meta_client.go: which errors the admin jobs of the meta client return.
use nebula_operator.Common.{
  ℕ, ◌≡◌, ◌≢◌, refl, ap, ◌⊎◌, inl, inr, Option, none, some, List, [], ◌∷◌, arith,
}
use nebula_operator.Common.Effect.{Outcome, ok, err, panic, Error, attempt, then_run, >>=-eq-ok}
use nebula_operator.Nebula.World.{
  World, Call, AdminJobReq, run_admin_job, reconnect, job_para, ask, add, show, stats, zone_balance,
}
use nebula_operator.Nebula.Meta.{
  MetaServer, Response, AdminJobResult, Code, succeeded, existed, no_hosts, JobStatus, finished,
  queue, retry_on_error, accept, settle, leader_changed, failed,
}
use nebula_operator.Nebula.Jobs.{
  run_job, recover_data_balance_job, balance_data, recover_in_zone_balance_job, balance_status,
  with_error, job_number, only_error, judge,
}

module _ (m : MetaServer) where
  keeps_error :
      (r : Outcome ℕ × World) (v : World) (n : ℕ)
      → then_run (attempt (λ _. r) r.1) (with_error m) ≢ (ok (n, none), v)
  unfolding with_error
  keeps_error (ok a, u) v n h = ground arith
  keeps_error (err e, u) v n h = ground arith
  keeps_error (panic, u) v n h = ground arith

  -- `runAdminJob` never returns without an error, whatever the servers answer.
  pub run_job_err : (req : AdminJobReq) (w v : World) (n : ℕ) → run_job m req w ≢ (ok (n, none), v)
  unfolding run_job
  run_job_err req w v n h = keeps_error (job_number m req w) v n h

  needs_error :
      (r : Outcome (ℕ × Option Error) × World) (v : World)
      → ((n : ℕ) (u : World) → r ≢ (ok (n, none), u))
      → then_run r (only_error m) ≢ (ok tt, v)
  needs_error (ok (n, none), u) v k h = k n u refl
  needs_error (ok (n, some e), u) v k h = ground arith
  needs_error (err e, u) v k h = ground arith
  needs_error (panic, u) v k h = ground arith

  -- Recovering a balance job never returns nil, whether or not the jobs are balanced in zones.
  pub recover_err :
      (j s : ℕ) (w v : World)
      → (recover_data_balance_job m j s w ≢ (ok tt, v))
        × (recover_in_zone_balance_job m j s w ≢ (ok tt, v))
  unfolding recover_data_balance_job recover_in_zone_balance_job
  recover_err j s w v = (
    (λ h. needs_error (run_job m _ w) v (λ n u. run_job_err _ w u n) h),
    (λ h. needs_error (run_job m _ w) v (λ n u. run_job_err _ w u n) h),
  )

  -- The codes that `retryOnError` takes for success.
  abbrev IsAccepted : Code → Type 0
  IsAccepted c = (c ≡ succeeded) ⊎ ((c ≡ existed) ⊎ (c ≡ no_hosts))

  -- A balance of data that is accepted at the first request, without the number of a job, is a panic: the request has no
  -- parameter from which to read the number.
  balance_data_panics :
      (s : ℕ) (w : World) (r : Response AdminJobResult)
      → m.job (
          run_admin_job (record { space = s; op = add; kind = zone_balance; paras = [] }) ∷ w.calls)
        ≡ ok r
      → IsAccepted r.code
      → r.payload.job_id ≡ 0
      → (balance_data m s w).0 ≡ panic
  unfolding balance_data
  balance_data_panics s w r e c z = ground arith

  -- A payload that was answered to a call.
  abbrev pub Answered : {A : Type 0} → (List Call → Outcome (Response A)) → Call → A → Type 0
  Answered {A} answer call a =
      (before : List Call) × (r : Response A) × (answer (call ∷ before) ≡ ok r) × (r.payload ≡ a)

  -- The request for the state of a job.
  abbrev pub status_call : ℕ → ℕ → Call
  status_call j s =
      run_admin_job (record { space = s; op = show; kind = stats; paras = job_para j ∷ [] })

  accept_ok : {A : Type 0} (c : Code) (a b : A) (w v : World) → accept m c a w ≡ (ok b, v) → a ≡ b
  unfolding accept
  accept_ok succeeded a b w v h = cc
  accept_ok existed a b w v h = cc
  accept_ok no_hosts a b w v h = cc
  accept_ok leader_changed a b w v h = absurd (ground arith)
  accept_ok failed a b w v h = absurd (ground arith)

  settle_ok :
      {A : Type 0} (answer : List Call → Outcome (Response A)) (call : Call) (c : Code)
      (leader : Option ℕ) (a b : A) (w v : World)
      → settle m answer call c leader a w ≡ (ok b, v)
      → (a ≡ b) ⊎ Answered answer call b
  unfolding settle
  settle_ok answer call succeeded leader a b w v h = inl (cc)
  settle_ok answer call existed leader a b w v h = inl (cc)
  settle_ok answer call no_hosts leader a b w v h = inl (cc)
  settle_ok answer call failed leader a b w v h = absurd (ground arith)
  settle_ok answer call leader_changed none a b w v h = absurd (ground arith)
  settle_ok {A} answer call leader_changed (some leader) a b w v h =
      let (_, u, _, h₁) = >>=-eq-ok (ask m.connected (reconnect leader)) _ w v b h in
      let (r, u', e, h₂) = >>=-eq-ok (ask answer call) (λ r. accept m r.code r.payload) u v b h₁ in
      inr (
        u.calls,
        r,
        ap (λ (p : Outcome (Response A) × World). p.0) e,
        accept_ok r.code r.payload b u' v h₂,
      )

  -- What a request returns is the payload of an answer to it, first or after the reconnection.
  pub retry_on_error-Answered :
      {A : Type 0} (answer : List Call → Outcome (Response A)) (call : Call) (w v : World) (a : A)
      → retry_on_error m answer call w ≡ (ok a, v)
      → Answered answer call a
  unfolding retry_on_error
  retry_on_error-Answered {A} answer call w v a h =
      let (r, u, e, k) = >>=-eq-ok (ask answer call) _ w v a h in
      elim (settle_ok answer call r.code r.leader r.payload a u v k) [
        | inl p ↦ (w.calls, r, ap (λ (p : Outcome (Response A) × World). p.0) e, p)
        | inr q ↦ q
      ]

  judge_ok :
      (l : List JobStatus) (w v : World)
      → judge m l w ≡ (ok tt, v)
      → (rest : List JobStatus) × (l ≡ finished ∷ rest)
  unfolding judge
  judge_ok [] w v h = absurd (ground arith)
  judge_ok (finished ∷ rest) w v h = (rest, refl)
  judge_ok (failed ∷ rest) w v h = absurd (ground arith)
  judge_ok (queue ∷ rest) w v h = absurd (ground arith)

  -- `BalanceStatus` returns nil only if the meta service answered to the request for the state of
  -- the job that it has finished.
  pub balance_status-finished :
      (j s : ℕ) (w v : World)
      → balance_status m j s w ≡ (ok tt, v)
      → (result : AdminJobResult) × (rest : List JobStatus) × (result.job_desc ≡ finished ∷ rest)
        × Answered m.job (status_call j s) result
  unfolding balance_status
  balance_status-finished j s w v h =
      let (result, u, e, k) =
        >>=-eq-ok (retry_on_error m m.job _) (λ r. judge m r.job_desc) w v tt h in
      let (rest, f) = judge_ok result.job_desc u v k in
      (result, rest, f, retry_on_error-Answered m.job _ w u result e)
