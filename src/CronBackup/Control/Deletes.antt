-- ===== src/CronBackup/Control/Deletes.antt =====
-- pkg/controller/cronbackup/cronbackup_control.go: which backups a reconciliation deletes.
use nebula_operator.Common.{
  ℕ, Bool, true, false, Option, none, some, List, [], ◌∷◌, refl, ◌≡◌, sym, ap, ◌+◌, All, All-map,
}
use nebula_operator.Common.Int.{ℤ, sub_ℕ}
use nebula_operator.Common.Effect.{
  Outcome, ok, err, panic, other, ◌>>=◌, ◌>>◌, >>=-eq-ok, return, fail, attempt,
}
use nebula_operator.CronBackup.Expiry.{Backup, expired_backups, sort_backups_by_asc_order}
use nebula_operator.CronBackup.Expiry.Expired.{expired_backups_ok}
use nebula_operator.CronBackup.Sync.{
  CronServer, CronWorld, CronCall, delete_backup, list_backups, update_status, clock, call_server,
  set_cron, sync,
}
use nebula_operator.CronBackup.Control.{
  wait_or_now, set_clean_time, has_none, read_clock, save_cron_status, select_backups,
  get_backups_to_be_reconciled, delete_expired, both_errors, delete_all, clean_after, parsed,
  cleanup_finished_backups, expires_after, expiration, expiration_of, calculate_expiration_time,
  saved_requeue, requeue_time, record_cleaning, after_sync, update_cron_backup,
}
use nebula_operator.CronBackup.Control.Only.{
  MayDelete, Allowed, Only, bind-Only, bind_knowing-Only, constant-Only, request-Only, attempt-Only,
  if-Only, set-Only, read-Only, read_kept-Only, done-Only, clock-Only, sync-Only,
}

-- A time that the clock has shown.
abbrev Clock : CronServer → ℕ → Type 0
Clock server now = (calls : List CronCall) × (server.now calls ≡ now)

-- A list that the API server has answered.
abbrev Listed : CronServer → List Backup → Type 0
Listed server backups = (calls : List CronCall) × (server.backups calls ≡ ok backups)

abbrev answer_of : {A : Type 0} → A → Outcome A × CronWorld → A
answer_of default (ok a, w) = a
answer_of default (err e, w) = default
answer_of default (panic, w) = default

module _ (server : CronServer) where
  read_clock-Clock :
      (w v : CronWorld) (now : ℕ) → read_clock server w ≡ (ok now, v) → Clock server now
  read_clock-Clock w v now e = (clock ∷ w.calls, ap (answer_of 0) e)

  get_backups-Listed :
      (w v : CronWorld) (backups : List Backup)
      → get_backups_to_be_reconciled server w ≡ (ok backups, v)
      → Listed server backups
  unfolding get_backups_to_be_reconciled
  get_backups-Listed w v backups e =
      let (_, u, _, k) =
        >>=-eq-ok (select_backups server) (λ _. call_server server.backups list_backups) w v backups
          e in
      (list_backups ∷ u.calls, ap (λ (p : Outcome (List Backup) × CronWorld). p.0) k)

module _ (server : CronServer) (max : Option ℕ) where
  save-Only : Only server max (save_cron_status server)
  unfolding save_cron_status
  save-Only =
      read-Only server max (λ cb. call_server server.done (update_status cb))
        (λ cb. request-Only server max server.done (update_status cb) tt)

  delete_expired-Only :
      (b : Backup) → MayDelete server max b → Only server max (delete_expired server b)
  unfolding delete_expired
  delete_expired-Only b k =
      if-Only server max b.deleting (return tt) (call_server server.done (delete_backup b.name))
        (done-Only server max)
        (request-Only server max server.done (delete_backup b.name) (b, refl, k))

  both_errors-Only :
      (r : Outcome (Unit {0})) (rest : Bool) → Only server max (both_errors server r rest)
  both_errors-Only (ok a) rest = constant-Only server max (ok rest)
  both_errors-Only (err e) rest = constant-Only server max (ok false)
  both_errors-Only panic rest = constant-Only server max panic

  delete_all-Only :
      (backups : List Backup)
      → All (MayDelete server max) backups
      → Only server max (delete_all server backups)
  unfolding delete_all
  delete_all-Only [] k = constant-Only server max (ok true)
  delete_all-Only (b ∷ backups) k =
      bind-Only server max (attempt (delete_expired server b)) _
        (attempt-Only server max (delete_expired server b) (delete_expired-Only b k.0))
        (λ r.
          bind-Only server max (delete_all server backups) (both_errors server r)
            (delete_all-Only backups k.1) (both_errors-Only r))

  module _
      (sort_members : (P : Backup → Type 0) (l : List Backup)
        → All P l
        → All P (server.sort l)) where
    clean_after-Only :
        (backups : List Backup) (calls : List CronCall) (o : Option ℕ)
        → server.backups calls ≡ ok backups
        → parsed server max ≡ o
        → Only server max (clean_after server backups o)
    clean_after-Only backups calls none listed e = constant-Only server max (ok false)
    clean_after-Only backups calls (some reserved_time) listed e =
        bind_knowing-Only server max (Clock server) (read_clock server) _ (read_clock-Clock server)
          (clock-Only server max)
          (λ now clock_now.
            let expired = expired_backups server.sort now reserved_time backups in
            if-Only server max (has_none expired) (return false) (delete_all server expired)
              (constant-Only server max (ok false))
              (delete_all-Only expired (
                All-map _ (MayDelete server max) expired
                  (λ b k. (
                    (calls, backups, listed, k.0.0),
                    k.0.1,
                    (clock_now.0, now, reserved_time, clock_now.1, e, k.1),
                  ))
                  (expired_backups_ok now reserved_time server.sort sort_members backups))))

    expires_after-Only :
        (reserved_time : ℕ) (backups : List Backup)
        → Only server max (expires_after server reserved_time backups)
    expires_after-Only reserved_time [] = constant-Only server max (ok none)
    expires_after-Only reserved_time (oldest ∷ backups) =
        bind-Only server max (read_clock server) _ (clock-Only server max) (λ now.
          constant-Only server max
            (ok (some (wait_or_now (sub_ℕ (oldest.creation_timestamp + reserved_time) now)))))

    expiration-Only :
        (backups : List Backup) (o : Option ℕ) → Only server max (expiration server backups o)
    expiration-Only backups none = constant-Only server max (err (other 7))
    expiration-Only backups (some reserved_time) =
        expires_after-Only reserved_time (sort_backups_by_asc_order server.sort backups)

    expiration_of-Only :
        (backups : List Backup) (o : Option ℕ) → Only server max (expiration_of server backups o)
    expiration_of-Only backups none = constant-Only server max (ok none)
    expiration_of-Only backups (some text) = expiration-Only backups (server.parse_duration text)

    requeue_time-Only :
        (pause : Bool) (backups : List Backup) (o : Option ℤ)
        → Only server max (requeue_time server pause backups o)
    unfolding calculate_expiration_time
    requeue_time-Only pause backups (some t) = constant-Only server max (ok (some t))
    requeue_time-Only pause backups none =
        if-Only server max pause (calculate_expiration_time server backups) (return none)
          (read-Only server max (λ cb. expiration_of server backups cb.max_reserved_time)
            (λ cb. expiration_of-Only backups cb.max_reserved_time))
          (constant-Only server max (ok none))

    saved_requeue-Only : (o : Option ℤ) → Only server max (saved_requeue server o)
    saved_requeue-Only none = constant-Only server max (ok none)
    saved_requeue-Only (some t) =
        bind-Only server max (save_cron_status server) (λ _. return (some t)) save-Only
          (λ _. constant-Only server max (ok (some t)))

    record_cleaning-Only : (cleaned : Bool) → Only server max (record_cleaning server cleaned)
    record_cleaning-Only cleaned =
        if-Only server max cleaned _ (return tt)
          (bind-Only server max (read_clock server) _ (clock-Only server max) (λ t.
            bind-Only server max (set_cron (set_clean_time t)) (λ _. save_cron_status server)
              (set-Only server max (set_clean_time t) (λ _. refl)) (λ _. save-Only)))
          (done-Only server max)

    after_sync-Only : (r : Outcome (Option ℤ)) → Only server max (after_sync server r)
    unfolding get_backups_to_be_reconciled cleanup_finished_backups
    after_sync-Only (err e) =
        bind-Only server max (save_cron_status server) (λ _. fail e) save-Only
          (λ _. constant-Only server max (err e))
    after_sync-Only panic = constant-Only server max panic
    after_sync-Only (ok requeue_after) =
        read-Only server max
          (λ cb. do
            backups ← get_backups_to_be_reconciled server
            cleaned ← cleanup_finished_backups server backups
            record_cleaning server cleaned
            t ← requeue_time server cb.pause backups requeue_after
            saved_requeue server t)
          (λ cb.
            bind_knowing-Only server max (Listed server) (get_backups_to_be_reconciled server) _
              (get_backups-Listed server)
              (bind-Only server max (select_backups server) _
                (constant-Only server max server.selector)
                (λ _. request-Only server max server.backups list_backups tt))
              (λ backups listed.
                bind-Only server max (cleanup_finished_backups server backups) _
                  (read_kept-Only server max
                    (λ c. clean_after server backups (parsed server c.max_reserved_time))
                    (λ c kept.
                      clean_after-Only backups listed.0 (parsed server c.max_reserved_time) listed.1
                        (ap (parsed server) (sym kept))))
                  (λ cleaned.
                    bind-Only server max (record_cleaning server cleaned) _
                      (record_cleaning-Only cleaned)
                      (λ _.
                        bind-Only server max (requeue_time server cb.pause backups requeue_after)
                          (saved_requeue server) (requeue_time-Only cb.pause backups requeue_after)
                          saved_requeue-Only))))

-- Whatever members of its list the sorting returns, every backup that a reconciliation deletes, whatever
-- its outcome, is of a list that the API server answered, has ended, is not being deleted already, and
-- was created before the reserved time of the cron backup began, by a clock that was read.
pub update_cron_backup-Allowed :
    (server : CronServer)
    (sort_members : (P : Backup → Type 0) (l : List Backup) → All P l → All P (server.sort l))
    (w : CronWorld)
    → All (Allowed server w.cron.max_reserved_time) w.calls
    → All (Allowed server w.cron.max_reserved_time) (update_cron_backup server w).1.calls
unfolding Only update_cron_backup
update_cron_backup-Allowed server sort_members w allowed =
    (bind-Only server w.cron.max_reserved_time (attempt (sync server)) (after_sync server)
      (attempt-Only server w.cron.max_reserved_time (sync server)
        (sync-Only server w.cron.max_reserved_time))
      (after_sync-Only server w.cron.max_reserved_time sort_members) w (refl, allowed)).1
