-- ===== src/CronBackup/Expiry.antt =====
-- pkg/controller/cronbackup/cronbackup_control.go: the backups that are old enough to be deleted. The
-- sorting by `byBackupStartTime` is a parameter. Times are nanoseconds, and now is later than the reserved
-- time.
pub mod Expired
use nebula_operator.Common.{
  ℕ, ◌-◌, ◌/◌, Bool, true, false, not, ◌||◌, List, [], ◌∷◌, ltb, leb, if◌then◌else◌,
}
use nebula_operator.Condition.Status.{Condition, is_condition_true}
use nebula_operator.Storaged.Api.{second}

-- The name goes by a number.
pub record Backup : Type 0 where
  pub name : ℕ
  pub creation_timestamp : ℕ
  pub conditions : List Condition
  pub deleting : Bool

-- The types `BackupComplete` and `BackupFailed`.
abbrev pub backup_complete : ℕ
backup_complete = 1

abbrev pub backup_failed : ℕ
backup_failed = 2

unfoldable pub is_finished : Backup → Bool
is_finished b =
    is_condition_true b.conditions backup_failed || is_condition_true b.conditions backup_complete

-- The loop of `sortBackupsByAscOrder`: finished backups that are not being deleted.
unfoldable pub finished_backups : List Backup → List Backup
unfolding is_finished
finished_backups [] = []
finished_backups (b ∷ backups) =
    let rest = finished_backups backups in
    if not (is_finished b) then rest else (if b.deleting then rest else b ∷ rest)

module _ (sort : List Backup → List Backup) where
  unfoldable pub sort_backups_by_asc_order : List Backup → List Backup
  unfolding finished_backups
  sort_backups_by_asc_order backups = sort (finished_backups backups)

abbrev pub unix : ℕ → ℕ
unix t = t / second

-- The backups before the first that is not expired.
unfoldable pub calculate_expired_backups : ℕ → ℕ → List Backup → List Backup
calculate_expired_backups now reserved_time [] = []
calculate_expired_backups now reserved_time (b ∷ backups) =
    let rest = calculate_expired_backups now reserved_time backups in
    if leb (unix (now - reserved_time)) (unix b.creation_timestamp) then [] else b ∷ rest

module _ (sort : List Backup → List Backup) where
  -- The backups that `cleanupFinishedBackups` deletes, once the reserved time is parsed.
  unfoldable pub expired_backups : ℕ → ℕ → List Backup → List Backup
  unfolding sort_backups_by_asc_order calculate_expired_backups
  expired_backups now reserved_time backups =
      calculate_expired_backups now reserved_time (sort_backups_by_asc_order sort backups)
