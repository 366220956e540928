-- ===== src/Examples/Backups.antt =====
-- Schedules of backups.
use nebula_operator.Common.{
  All, Option, some, List, [], ◌∷◌, inl, ℕ, ◌+◌, ◌*◌, ◌/◌, ◌<◌, refl, false, none, arith,
}
use nebula_operator.Common.Effect.{ok, err, not_found}
use nebula_operator.CronBackup.Sync.{CronServer, CronWorld}
use nebula_operator.CronBackup.Control.{update_cron_backup}
use nebula_operator.CronBackup.Control.Only.{Allowed}
use nebula_operator.CronBackup.Control.Deletes.{update_cron_backup-Allowed}
use nebula_operator.Storaged.Api.{second}
use nebula_operator.Condition.Status.{condition_true}
use nebula_operator.CronBackup.Expiry.{Backup, backup_complete, calculate_expired_backups}
use nebula_operator.CronBackup.Expiry.Expired.{Member, calculate_expired_backups_all}
use nebula_operator.CronBackup.Schedule.{latest, missed_times, most_recent_schedule_time}
use nebula_operator.CronBackup.Schedule.Latest.{IsLatest, most_recent_schedule_time-some}

-- Every ten seconds.
abbrev every_ten : ℕ → ℕ
every_ten t = (t / (10 * second) + 1) * (10 * second)

every_ten-grows : (t : ℕ) → t < every_ten t
every_ten-grows t = omega arith

most_recent_schedule_time-some_example :
    IsLatest every_ten every_ten-grows (35 * second) (30 * second)
unfolding most_recent_schedule_time missed_times latest
most_recent_schedule_time-some_example =
    most_recent_schedule_time-some every_ten every_ten-grows (35 * second) 0 (30 * second) false
      refl

abbrev backup_of : ℕ → ℕ → Backup
backup_of name created = record {
  name = name;
  creation_timestamp = created;
  conditions =
      record {
        kind = backup_complete;
        status = condition_true;
        reason = 1;
        message = 1;
        last_update_time = created;
        last_transition_time = created;
      }
      ∷ [];
  deleting = false;
}

-- The first is older than the reserved 60 seconds at the time of 100 seconds.
abbrev backups : List Backup
backups = backup_of 1 (10 * second) ∷ backup_of 2 (90 * second) ∷ []

calculate_expired_backups_all_example :
    Member
      (calculate_expired_backups (100 * second) (60 * second) backups)
      (backup_of 1 (10 * second))
calculate_expired_backups_all_example =
    calculate_expired_backups_all (100 * second) (60 * second) backups (backup_of 1 (10 * second))
      ((omega arith, tt), (tt, tt)) (inl refl) (omega arith)

-- A backup is named by its time in seconds; the reserved time is a minute.
abbrev cron_server : CronServer
cron_server = record {
  backup = λ _. err not_found;
  done = λ _. ok tt;
  backups = λ _. ok backups;
  now = λ _. 105 * second;
  parse_standard = λ _. some every_ten;
  parse_duration = λ _. some (60 * second);
  backup_name = λ t. t / second;
  selector = ok tt;
  sort = λ l. l;
}

abbrev cron_world : CronWorld
cron_world = record {
  cron = record {
    deleting = false;
    pause = false;
    schedule = 1;
    max_reserved_time = some 1;
    creation_timestamp = 0;
    last_backup = some 90;
    last_schedule_time = some (90 * second);
    last_successful_time = none;
    backup_clean_time = none;
  };
  calls = [];
}

abbrev schedule_or : (ℕ → ℕ) → Option (ℕ → ℕ) → ℕ → ℕ
schedule_or default none = default
schedule_or default (some next) = next

update_cron_backup-Allowed_example :
    All (Allowed cron_server (some 1)) (update_cron_backup cron_server cron_world).1.calls
update_cron_backup-Allowed_example =
    update_cron_backup-Allowed cron_server (λ P l h. h) cron_world tt
