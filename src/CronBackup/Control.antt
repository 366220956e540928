-- ===== src/CronBackup/Control.antt =====
-- pkg/controller/cronbackup/cronbackup_control.go: the reconciliation of a cron backup. The workers that
-- delete the expired backups run one after the other.
pub mod Only
pub mod Deletes
use nebula_operator.Common.{
  ℕ, ◌+◌, Bool, true, false, not, ◌&&◌, Option, none, some, List, [], ◌∷◌, ltb, if◌then◌else◌,
}
use nebula_operator.Common.Int.{ℤ, sub_ℕ, pos, negsuc}
use nebula_operator.Common.Effect.{
  M, Outcome, ok, err, panic, Error, other, ◌>>=◌, ◌>>◌, return, fail, crash, attempt,
}
use nebula_operator.CronBackup.Expiry.{Backup, expired_backups, sort_backups_by_asc_order}
use nebula_operator.CronBackup.Sync.{
  CronBackup, CronServer, CronWorld, CronCall, delete_backup, list_backups, update_status, clock,
  call_server, set_cron, sync,
}

abbrev pub hundred_milliseconds : ℤ
hundred_milliseconds = pos 100000000

abbrev pub wait_or_now : ℤ → ℤ
wait_or_now (pos n) = pos n
wait_or_now (negsuc n) = hundred_milliseconds

abbrev pub set_clean_time : ℕ → CronBackup → CronBackup
set_clean_time t cb = record cb { backup_clean_time = some t }

abbrev pub has_none : List Backup → Bool
has_none [] = true
has_none (b ∷ backups) = false

module _ (server : CronServer) where
  abbrev pub read_clock : M CronWorld ℕ
  read_clock = call_server (λ calls. ok (server.now calls)) clock

  unfoldable pub save_cron_status : M CronWorld (Unit {0})
  save_cron_status w = call_server server.done (update_status w.cron) w

  abbrev pub select_backups : M CronWorld (Unit {0})
  select_backups w = (server.selector, w)

  unfoldable pub get_backups_to_be_reconciled : M CronWorld (List Backup)
  get_backups_to_be_reconciled = do select_backups; call_server server.backups list_backups

  -- A worker of the clean-up.
  unfoldable pub delete_expired : Backup → M CronWorld (Unit {0})
  delete_expired b =
      if b.deleting then return tt else call_server server.done (delete_backup b.name)

  abbrev pub both_errors : Outcome (Unit {0}) → Bool → M CronWorld Bool
  both_errors (ok a) rest = return rest
  both_errors (err e) rest = return false
  both_errors panic rest = crash

  -- Every worker runs; whether none of them returned an error.
  unfoldable pub delete_all : List Backup → M CronWorld Bool
  delete_all [] = return true
  delete_all (b ∷ backups) = do
    r ← attempt (delete_expired b)
    rest ← delete_all backups
    both_errors r rest

  abbrev pub clean_after : List Backup → Option ℕ → M CronWorld Bool
  clean_after backups none = return false
  clean_after backups (some reserved_time) = do
    now ← read_clock
    if has_none (expired_backups server.sort now reserved_time backups)
        then return false
        else delete_all (expired_backups server.sort now reserved_time backups)

  abbrev pub parsed : Option ℕ → Option ℕ
  parsed none = none
  parsed (some text) = server.parse_duration text

  unfoldable pub cleanup_finished_backups : List Backup → M CronWorld Bool
  cleanup_finished_backups backups w = clean_after backups (parsed w.cron.max_reserved_time) w

  abbrev pub expires_after : ℕ → List Backup → M CronWorld (Option ℤ)
  expires_after reserved_time [] = return none
  expires_after reserved_time (oldest ∷ backups) = do
    now ← read_clock
    return (some (wait_or_now (sub_ℕ (oldest.creation_timestamp + reserved_time) now)))

  abbrev pub expiration : List Backup → Option ℕ → M CronWorld (Option ℤ)
  expiration backups none = fail (other 7)
  expiration backups (some reserved_time) =
      expires_after reserved_time (sort_backups_by_asc_order server.sort backups)

  abbrev pub expiration_of : List Backup → Option ℕ → M CronWorld (Option ℤ)
  expiration_of backups none = return none
  expiration_of backups (some text) = expiration backups (server.parse_duration text)

  unfoldable pub calculate_expiration_time : List Backup → M CronWorld (Option ℤ)
  calculate_expiration_time backups w = expiration_of backups w.cron.max_reserved_time w

  abbrev pub saved_requeue : Option ℤ → M CronWorld (Option ℤ)
  saved_requeue none = return none
  saved_requeue (some t) = do save_cron_status; return (some t)

  abbrev pub requeue_time : Bool → List Backup → Option ℤ → M CronWorld (Option ℤ)
  requeue_time pause backups (some t) = return (some t)
  requeue_time pause backups none = if pause then calculate_expiration_time backups else return none

  abbrev pub record_cleaning : Bool → M CronWorld (Unit {0})
  record_cleaning cleaned =
      if cleaned
      then (do t ← read_clock; set_cron (set_clean_time t); save_cron_status)
      else return tt

  abbrev pub after_sync : Outcome (Option ℤ) → M CronWorld (Option ℤ)
  after_sync (err e) w = (save_cron_status >>= λ _. fail e) w
  after_sync panic w = (panic, w)
  after_sync (ok requeue_after) w =
      (do
        backups ← get_backups_to_be_reconciled
        cleaned ← cleanup_finished_backups backups
        record_cleaning cleaned
        t ← requeue_time w.cron.pause backups requeue_after
        saved_requeue t)
        w

  unfoldable pub update_cron_backup : M CronWorld (Option ℤ)
  update_cron_backup = attempt (sync server) >>= after_sync
