-- ===== src/Nebula/Jobs.antt =====
-- pkg/nebula/meta_client.go: the balance jobs of the meta client, which go through `runAdminJob`.
pub mod Errors
pub mod Frame
use nebula_operator.Common.{
  ℕ, zero, suc, ◌+◌, Bool, true, false, Option, none, some, List, [], ◌∷◌, ◌++◌, map, contains,
  ◌==◌, if◌then◌else◌,
}
use nebula_operator.Common.Effect.{
  M, Outcome, ok, err, panic, Error, reconcile, job_failed, other, ◌>>=◌, ◌>>◌, return, fail, crash,
  attempt,
}
use nebula_operator.Nebula.World.{
  World, Call, connect, reconnect, list_spaces, list_hosts, get_space, list_parts, run_admin_job,
  drop_hosts, AdminJobReq, JobOp, add, show, recover, JobType, leader_balance, data_balance,
  zone_balance, stats, Para, host_para, job_para, ask,
}
use nebula_operator.Nebula.Meta.{MetaServer, JobStatus, finished, failed, queue, retry_on_error}

module _ (m : MetaServer) where
  -- `strconv.Atoi(req.Paras[0])`: a quoted host is no number.
  first_para : List Para → M World ℕ
  first_para [] = crash
  first_para (host_para h ∷ rest) = fail (other 4)
  first_para (job_para n ∷ rest) = return n

  -- A Go result `(int32, error)`: a request that fails gives the number 0.
  with_error : Outcome ℕ → M World (ℕ × Option Error)
  with_error (ok n) = return (n, some reconcile)
  with_error (err e) = return (0, some e)
  with_error panic = crash

  job_number : AdminJobReq → M World ℕ
  unfolding retry_on_error first_para
  job_number req = do
    result ← retry_on_error m m.job (run_admin_job req)
    if result.job_id == 0 then first_para req.paras else return result.job_id

  -- `runAdminJob`: the number of the job that runs now, with an error on every path.
  unfoldable pub run_job : AdminJobReq → M World (ℕ × Option Error)
  unfolding job_number with_error
  run_job req = do r ← attempt (job_number req); with_error r

  unfoldable pub balance_data : ℕ → M World (ℕ × Option Error)
  unfolding run_job
  balance_data s = run_job (record { space = s; op = add; kind = zone_balance; paras = [] })

  unfoldable pub balance_data_in_zone : ℕ → M World (ℕ × Option Error)
  unfolding run_job
  balance_data_in_zone s = run_job (record { space = s; op = add; kind = data_balance; paras = [] })

  unfoldable pub meta_remove_host : ℕ → List ℕ → M World (ℕ × Option Error)
  unfolding run_job
  meta_remove_host s hosts =
      run_job (record { space = s; op = add; kind = zone_balance; paras = map host_para hosts })

  unfoldable pub remove_host_in_zone : ℕ → List ℕ → M World (ℕ × Option Error)
  unfolding run_job
  remove_host_in_zone s hosts =
      run_job (record { space = s; op = add; kind = data_balance; paras = map host_para hosts })

  -- The error of a Go result `(_, error)`.
  abbrev only_error : ℕ × Option Error → M World (Unit {0})
  only_error (n, none) = return tt
  only_error (n, some e) = fail e

  unfoldable pub recover_data_balance_job : ℕ → ℕ → M World (Unit {0})
  unfolding run_job
  recover_data_balance_job j s = do
    r ← run_job (record { space = s; op = recover; kind = zone_balance; paras = job_para j ∷ [] })
    only_error r

  unfoldable pub recover_in_zone_balance_job : ℕ → ℕ → M World (Unit {0})
  unfolding run_job
  recover_in_zone_balance_job j s = do
    r ← run_job (record { space = s; op = recover; kind = data_balance; paras = job_para j ∷ [] })
    only_error r

  -- Only the first description of the job counts.
  judge : List JobStatus → M World (Unit {0})
  judge [] = fail reconcile
  judge (finished ∷ rest) = return tt
  judge (failed ∷ rest) = fail job_failed
  judge (queue ∷ rest) = fail reconcile

  unfoldable pub balance_status : ℕ → ℕ → M World (Unit {0})
  unfolding retry_on_error judge
  balance_status j s = do
    result ←
        retry_on_error m m.job
          (run_admin_job (record { space = s; op = show; kind = stats; paras = job_para j ∷ [] }))
    judge result.job_desc
