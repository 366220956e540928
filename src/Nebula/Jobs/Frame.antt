-- ===== src/Nebula/Jobs/Frame.antt =====
-- pkg/nebula/meta_client.go: no balance job of the meta client changes the NebulaCluster object.
use nebula_operator.Common.{
  ℕ, ◌≡◌, refl, ◌∙◌, Option, none, some, List, [], ◌∷◌, if◌then◌else◌, ◌==◌,
}
use nebula_operator.Common.Effect.{M, Outcome, ok, err, panic, Error, return, attempt}
use nebula_operator.Nebula.World.{World, AdminJobReq, Para, host_para, job_para}
use nebula_operator.Nebula.Meta.{MetaServer, JobStatus, finished, failed, queue, retry_on_error}
use nebula_operator.Nebula.Jobs.{
  run_job, job_number, first_para, with_error, only_error, judge, balance_status,
  recover_data_balance_job, recover_in_zone_balance_job,
}
use nebula_operator.Nebula.Frame.{Keeps, Keeps->>=, Keeps-if, retry_on_error-Keeps}

pub attempt-Keeps : {A : Type 0} (m : M World A) → Keeps m → Keeps (attempt m)
attempt-Keeps {A} m h w = go (m w) ∙ h w
  where
    go : (r : Outcome A × World) → (attempt (λ _. r) w).1.cluster ≡ r.1.cluster
    go (ok a, v) = refl
    go (err e, v) = refl
    go (panic, v) = refl

module _ (meta : MetaServer) where
  first_para-Keeps : (ps : List Para) → Keeps (first_para meta ps)
  unfolding first_para
  first_para-Keeps [] w = refl
  first_para-Keeps (host_para h ∷ ps) w = refl
  first_para-Keeps (job_para n ∷ ps) w = refl

  with_error-Keeps : (r : Outcome ℕ) → Keeps (with_error meta r)
  unfolding with_error
  with_error-Keeps (ok n) w = refl
  with_error-Keeps (err e) w = refl
  with_error-Keeps panic w = refl

  judge-Keeps : (l : List JobStatus) → Keeps (judge meta l)
  unfolding judge
  judge-Keeps [] w = refl
  judge-Keeps (finished ∷ l) w = refl
  judge-Keeps (failed ∷ l) w = refl
  judge-Keeps (queue ∷ l) w = refl

  job_number-Keeps : (req : AdminJobReq) → Keeps (job_number meta req)
  unfolding job_number
  job_number-Keeps req =
      Keeps->>= (retry_on_error meta meta.job _)
        (λ result. if result.job_id == 0 then first_para meta req.paras else return result.job_id)
        (retry_on_error-Keeps meta meta.job _)
        (λ result.
          Keeps-if (result.job_id == 0) (first_para meta req.paras) (return result.job_id)
            (first_para-Keeps req.paras) (λ w. refl))

  pub run_job-Keeps : (req : AdminJobReq) → Keeps (run_job meta req)
  unfolding run_job
  run_job-Keeps req =
      Keeps->>= (attempt (job_number meta req)) (with_error meta)
        (attempt-Keeps (job_number meta req) (job_number-Keeps req)) with_error-Keeps

  only_error-Keeps : (r : ℕ × Option Error) → Keeps (only_error meta r)
  only_error-Keeps (n, none) w = refl
  only_error-Keeps (n, some e) w = refl

  pub recover_data_balance_job-Keeps : (j s : ℕ) → Keeps (recover_data_balance_job meta j s)
  unfolding recover_data_balance_job
  recover_data_balance_job-Keeps j s =
      Keeps->>= (run_job meta _) (only_error meta) (run_job-Keeps _) only_error-Keeps

  pub recover_in_zone_balance_job-Keeps : (j s : ℕ) → Keeps (recover_in_zone_balance_job meta j s)
  unfolding recover_in_zone_balance_job
  recover_in_zone_balance_job-Keeps j s =
      Keeps->>= (run_job meta _) (only_error meta) (run_job-Keeps _) only_error-Keeps

  pub balance_status-Keeps : (j s : ℕ) → Keeps (balance_status meta j s)
  unfolding balance_status
  balance_status-Keeps j s =
      Keeps->>= (retry_on_error meta meta.job _) (λ r. judge meta r.job_desc)
        (retry_on_error-Keeps meta meta.job _) (λ r. judge-Keeps r.job_desc)
