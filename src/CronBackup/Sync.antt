-- ===== src/CronBackup/Sync.antt =====
-- pkg/controller/cronbackup/cronbackup_manager.go: the start of the next backup. The parsing of a
-- schedule and the name that is made of a time are parameters. Names go by numbers.
pub mod Due
pub mod Started
use nebula_operator.Common.{
  ℕ, ◌+◌, Bool, true, false, ◌||◌, Option, none, some, List, [], ◌∷◌, ltb, if◌then◌else◌,
}
use nebula_operator.Common.Int.{ℤ, sub_ℕ}
use nebula_operator.Common.Effect.{
  M, Outcome, ok, err, panic, Error, not_found, reconcile, job_failed, other, ◌>>=◌, ◌>>◌, return,
  fail, crash, attempt,
}
use nebula_operator.Condition.Status.{Condition, is_condition_true}
use nebula_operator.CronBackup.Schedule.{most_recent_schedule_time}
use nebula_operator.CronBackup.Expiry.{Backup, backup_complete, backup_failed}

-- The fields of a NebulaCronBackup that the code reads and writes.
pub record CronBackup : Type 0 where
  pub deleting : Bool
  pub pause : Bool
  pub schedule : ℕ
  pub max_reserved_time : Option ℕ
  pub creation_timestamp : ℕ
  pub last_backup : Option ℕ
  pub last_schedule_time : Option ℕ
  pub last_successful_time : Option ℕ
  pub backup_clean_time : Option ℕ

pub data CronCall : Type 0 where
  get_backup create_backup delete_backup : ℕ → CronCall
  list_backups clock : CronCall
  update_status : CronBackup → CronCall

pub record LastBackup : Type 0 where
  pub conditions : List Condition
  pub time_completed : Option ℕ

pub record CronServer : Type 0 where
  pub backup : List CronCall → Outcome LastBackup
  pub done : List CronCall → Outcome (Unit {0})
  pub backups : List CronCall → Outcome (List Backup)
  pub now : List CronCall → ℕ
  pub parse_standard : ℕ → Option (ℕ → ℕ)
  pub parse_duration : ℕ → Option ℕ
  pub backup_name : ℕ → ℕ
  pub selector : Outcome (Unit {0})
  pub sort : List Backup → List Backup

pub record CronWorld : Type 0 where
  pub cron : CronBackup
  pub calls : List CronCall

abbrev pub call_server : {A : Type 0} → (List CronCall → Outcome A) → CronCall → M CronWorld A
call_server answer call w = (answer (call ∷ w.calls), record w { calls = call ∷ w.calls })

abbrev pub set_cron : (CronBackup → CronBackup) → M CronWorld (Unit {0})
set_cron f w = (ok tt, record w { cron = f w.cron })

-- 100 milliseconds.
abbrev pub next_schedule_delta : ℕ
next_schedule_delta = 100000000

abbrev pub earliest_time : CronBackup → ℕ
earliest_time cb = elim (cb.last_schedule_time) [ none ↦ cb.creation_timestamp | some t ↦ t ]

-- The last successful time after a finished backup.
abbrev pub successful_time : Option ℕ → Option ℕ → Option ℕ
successful_time none completed = completed
successful_time (some last) none = some last
successful_time (some last) (some completed) =
    if ltb last completed then some completed else some last

abbrev pub unless_after : ℕ → Option ℕ → Option ℕ
unless_after now none = none
unless_after now (some t) = if ltb now t then none else some t

abbrev pub due_time : ℕ → Outcome (Option ℕ × Bool) → Outcome (Option ℕ)
due_time now (ok (most_recent, many)) = ok (unless_after now most_recent)
due_time now (err e) = err e
due_time now panic = panic

unfoldable pub next_schedule_time : CronBackup → ℕ → (ℕ → ℕ) → Outcome (Option ℕ)
next_schedule_time cb now schedule =
    due_time now (most_recent_schedule_time schedule (earliest_time cb) now)

-- The time from which the next one of the schedule is asked for.
abbrev pub requeue_from : ℕ → ℕ → Outcome (Option ℕ × Bool) → ℕ
requeue_from earliest now (ok (some t, many)) = t
requeue_from earliest now (ok (none, many)) = earliest
requeue_from earliest now (err e) = now
requeue_from earliest now panic = now

unfoldable pub next_schedule_time_duration : CronBackup → ℕ → (ℕ → ℕ) → ℤ
next_schedule_time_duration cb now schedule =
    sub_ℕ
      (schedule (
          requeue_from (earliest_time cb) now
            (most_recent_schedule_time schedule (earliest_time cb) now))
        + next_schedule_delta)
      now

module _ (server : CronServer) where
  abbrev pub keep_successful : Option ℕ → CronBackup → CronBackup
  keep_successful completed cb = record cb {
    last_successful_time = successful_time cb.last_successful_time completed;
  }

  -- What follows the reading of the last backup.
  unfoldable pub judge_last : Outcome LastBackup → M CronWorld (Unit {0})
  judge_last (ok b) =
      if is_condition_true b.conditions backup_complete
        || is_condition_true b.conditions backup_failed
      then set_cron (keep_successful b.time_completed)
      else fail reconcile
  judge_last (err not_found) = return tt
  judge_last (err reconcile) = fail reconcile
  judge_last (err job_failed) = fail job_failed
  judge_last (err (other n)) = fail (other n)
  judge_last panic = crash

  abbrev pub after_last : Option ℕ → M CronWorld (Unit {0})
  after_last none = return tt
  after_last (some name) = attempt (call_server server.backup (get_backup name)) >>= judge_last

  unfoldable pub can_perform_next_backup : M CronWorld (Unit {0})
  can_perform_next_backup w = after_last w.cron.last_backup w

  unfoldable pub create_next_backup : ℕ → M CronWorld ℕ
  create_next_backup timestamp = do
    call_server server.done (create_backup (server.backup_name timestamp))
    return (server.backup_name timestamp)

  abbrev pub keep_started : ℕ → ℕ → CronBackup → CronBackup
  keep_started name t cb = record cb { last_backup = some name; last_schedule_time = some t }

  abbrev pub requeue : ℕ → (ℕ → ℕ) → M CronWorld (Option ℤ)
  requeue now schedule w = (ok (some (next_schedule_time_duration w.cron now schedule)), w)

  -- What follows the next schedule time. An error of it is only logged.
  unfoldable pub start_due : ℕ → (ℕ → ℕ) → Outcome (Option ℕ) → M CronWorld (Option ℤ)
  start_due now schedule (ok none) = requeue now schedule
  start_due now schedule (ok (some t)) = do
    name ← create_next_backup t
    set_cron (keep_started name t)
    requeue now schedule
  start_due now schedule (err e) = return none
  start_due now schedule panic = crash

  unfoldable pub run_schedule : ℕ → Option (ℕ → ℕ) → M CronWorld (Option ℤ)
  run_schedule now none w = (ok none, w)
  run_schedule now (some schedule) w =
      start_due now schedule (next_schedule_time w.cron now schedule) w

  unfoldable pub sync : M CronWorld (Option ℤ)
  sync w =
      (if w.cron.deleting || w.cron.pause then return none else (do
        can_perform_next_backup
        now ← call_server (λ calls. ok (server.now calls)) clock
        run_schedule now (server.parse_standard w.cron.schedule)))
        w
