-- ===== src/Storaged/Balancer.antt =====
-- pkg/controller/component/data_balancer.go: a balance job of a space is started, and followed in
-- later reconciliations.
pub mod Recorded
use nebula_operator.Common.{
  ℕ, Bool, true, false, Option, none, some, List, [], ◌∷◌, ltb, ◌==◌, if◌then◌else◌,
}
use nebula_operator.Common.Effect.{
  M, Outcome, ok, err, panic, Error, job_failed, not_found, reconcile, other, ◌>>=◌, ◌>>◌, return,
  fail, crash, attempt,
}
use nebula_operator.Nebula.World.{
  World, BalanceJob, Cluster, StoragedStatus, get_cluster, modify, append_to,
}
use nebula_operator.Nebula.Meta.{MetaServer, meta_balance_leader}
use nebula_operator.Nebula.Jobs.{
  balance_data, balance_data_in_zone, meta_remove_host, remove_host_in_zone,
  recover_data_balance_job, recover_in_zone_balance_job, balance_status,
}
use nebula_operator.Storaged.Api.{ApiServer, save_status}

abbrev pub add_balanced : StoragedStatus → ℕ → StoragedStatus
add_balanced st s = record st { balanced_spaces = append_to st.balanced_spaces s }

abbrev pub add_removed : StoragedStatus → ℕ → StoragedStatus
add_removed st s = record st { removed_spaces = append_to st.removed_spaces s }

module _ (api : ApiServer) (meta : MetaServer) where
  unfoldable pub recover_job : BalanceJob → M World (Unit {0})
  recover_job job = do
    c ← get_cluster
    if c.zone_enabled
        then recover_in_zone_balance_job meta job.job_id job.space_id
        else recover_data_balance_job meta job.job_id job.space_id

  -- What follows the state of the job: a failed one is recovered, a finished one recorded.
  unfoldable pub followed :
      BalanceJob → M World (Unit {0}) → Outcome (Unit {0}) → M World (Unit {0})
  followed job done (ok _) = done
  followed job done (err not_found) = fail not_found
  followed job done (err reconcile) = fail reconcile
  followed job done (err job_failed) = recover_job job
  followed job done (err (other n)) = fail (other n)
  followed job done panic = crash

  -- The job of the space is followed; for a space with no job one is started.
  unfoldable pub follow_or_start :
      ℕ
      → M World (Unit {0})
      → (BalanceJob → M World (Unit {0}))
      → Option BalanceJob
      → M World (Unit {0})
  follow_or_start s start done none = start
  follow_or_start s start done (some job) =
      if job.space_id == s
      then (do r ← attempt (balance_status meta job.job_id job.space_id); followed job (done job) r)
      else start

  -- What follows the start of a job: its number is kept, and the error returned.
  unfoldable pub started : ℕ → ℕ × Option Error → M World (Unit {0})
  started s (n, none) = return tt
  started s (n, some e) =
      if ltb 0 n
      then (do
        modify (λ st. record st { last_balance_job = some (record { space_id = s; job_id = n }) })
        save_status api
        fail e)
      else fail e

  unfoldable pub start_balance : ℕ → M World (Unit {0})
  start_balance s = do
    c ← get_cluster
    r ← if c.zone_enabled then balance_data_in_zone meta s else balance_data meta s
    started s r

  unfoldable pub record_balanced : BalanceJob → M World (Unit {0})
  record_balanced job = do
    meta_balance_leader meta job.space_id
    modify (λ st. add_balanced st job.space_id)
    save_status api

  unfoldable pub balance_space : ℕ → M World (Unit {0})
  balance_space s = do
    c ← get_cluster
    follow_or_start s (start_balance s) record_balanced c.storaged.last_balance_job

  unfoldable pub start_removal : ℕ → List ℕ → M World (Unit {0})
  start_removal s hosts = do
    c ← get_cluster
    r ← if c.zone_enabled then remove_host_in_zone meta s hosts else meta_remove_host meta s hosts
    started s r

  unfoldable pub record_removed : BalanceJob → M World (Unit {0})
  record_removed job = do modify (λ st. add_removed st job.space_id); save_status api

  unfoldable pub remove_host : ℕ → List ℕ → M World (Unit {0})
  remove_host s hosts = do
    c ← get_cluster
    follow_or_start s (start_removal s hosts) record_removed c.storaged.last_balance_job
