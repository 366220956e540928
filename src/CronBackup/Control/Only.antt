-- ===== src/CronBackup/Control/Only.antt =====
-- pkg/controller/cronbackup/cronbackup_manager.go: runs that delete no other backup than they may.
use nebula_operator.Common.{
  ℕ, ◌||◌, Bool, true, false, Option, none, some, List, ◌≡◌, refl, ◌∙◌, All, if◌then◌else◌,
}
use nebula_operator.Common.Effect.{
  M, Outcome, ok, err, panic, not_found, reconcile, job_failed, other, ◌>>=◌, ◌>>◌, then_run,
  return, fail, attempt,
}
use nebula_operator.Condition.Status.{is_condition_true}
use nebula_operator.CronBackup.Expiry.{Backup, backup_complete, backup_failed}
use nebula_operator.CronBackup.Expiry.Expired.{Member, IsDeletable, IsExpired}
use nebula_operator.CronBackup.Sync.{
  CronBackup, CronServer, CronWorld, CronCall, LastBackup, get_backup, create_backup, delete_backup,
  list_backups, clock, update_status, call_server, set_cron, judge_last, after_last,
  can_perform_next_backup, create_next_backup, keep_started, keep_successful, requeue, start_due,
  run_schedule, next_schedule_time, sync,
}
use nebula_operator.CronBackup.Control.{read_clock, parsed}

-- A backup of a list that the API server answered, which has ended, is not being deleted, and was created
-- before the reserved time of the cron backup began, by a clock that was read.
abbrev pub MayDelete : CronServer → Option ℕ → Backup → Type 0
MayDelete server max_reserved_time b =
    ((calls : List CronCall) × (backups : List Backup) × (server.backups calls ≡ ok backups)
      × Member backups b)
    × IsDeletable b
    × ((calls : List CronCall) × (now reserved_time : ℕ) × (server.now calls ≡ now)
        × (parsed server max_reserved_time ≡ some reserved_time)
        × IsExpired now reserved_time b)

-- A call deletes no other backup.
abbrev pub Allowed : CronServer → Option ℕ → CronCall → Type 0
Allowed server max_reserved_time (delete_backup name) =
    (b : Backup) × (b.name ≡ name) × MayDelete server max_reserved_time b
Allowed server max_reserved_time (get_backup name) = Unit
Allowed server max_reserved_time (create_backup name) = Unit
Allowed server max_reserved_time list_backups = Unit
Allowed server max_reserved_time clock = Unit
Allowed server max_reserved_time (update_status cb) = Unit

-- The reserved time of the object is still this, and the calls are allowed.
abbrev pub Sound : CronServer → Option ℕ → CronWorld → Type 0
Sound server max_reserved_time w =
    (w.cron.max_reserved_time ≡ max_reserved_time) × All (Allowed server max_reserved_time) w.calls

-- A run whose calls are allowed if those before it were.
unfoldable pub Only : CronServer → Option ℕ → {A : Type 0} → M CronWorld A → Type 0
Only server max_reserved_time m =
    (w : CronWorld) → Sound server max_reserved_time w → Sound server max_reserved_time (m w).1

module _ (server : CronServer) (max_reserved_time : Option ℕ) where
  pub bind-Only :
      {A B : Type 0} (m : M CronWorld A) (f : A → M CronWorld B)
      → Only server max_reserved_time m
      → ((a : A) → Only server max_reserved_time (f a))
      → Only server max_reserved_time (m >>= f)
  unfolding Only
  bind-Only {A} {B} m f om of w i = go (m w) (om w i)
    where
      go :
          (r : Outcome A × CronWorld)
          → Sound server max_reserved_time r.1
          → Sound server max_reserved_time (then_run r f).1
      go (ok a, u) j = of a u j
      go (err x, u) j = j
      go (panic, u) j = j

  -- The same, where more is known of what the first run returns.
  pub bind_knowing-Only :
      {A B : Type 0} (P : A → Type 0) (m : M CronWorld A) (f : A → M CronWorld B)
      → ((w v : CronWorld) (a : A) → m w ≡ (ok a, v) → P a)
      → Only server max_reserved_time m
      → ((a : A) → P a → Only server max_reserved_time (f a))
      → Only server max_reserved_time (m >>= f)
  unfolding Only
  bind_knowing-Only {A} {B} P m f known om of w i = go (m w) refl (om w i)
    where
      go :
          (r : Outcome A × CronWorld)
          → m w ≡ r
          → Sound server max_reserved_time r.1
          → Sound server max_reserved_time (then_run r f).1
      go (ok a, u) e j = of a (known w u a e) u j
      go (err x, u) e j = j
      go (panic, u) e j = j

  pub constant-Only : {A : Type 0} (o : Outcome A) → Only server max_reserved_time (λ w. (o, w))
  unfolding Only
  constant-Only o w i = i

  pub request-Only :
      {A : Type 0} (answer : List CronCall → Outcome A) (call : CronCall)
      → Allowed server max_reserved_time call
      → Only server max_reserved_time (call_server answer call)
  unfolding Only
  request-Only answer call a w i = (i.0, (a, i.1))

  pub attempt-Only :
      {A : Type 0} (m : M CronWorld A)
      → Only server max_reserved_time m
      → Only server max_reserved_time (attempt m)
  unfolding Only
  attempt-Only {A} m om w i = go (m w) (om w i)
    where
      go :
          (r : Outcome A × CronWorld)
          → Sound server max_reserved_time r.1
          → Sound server max_reserved_time (attempt (λ (_ : CronWorld). r) w).1
      go (ok a, u) j = j
      go (err x, u) j = j
      go (panic, u) j = j

  pub if-Only :
      {A : Type 0} (b : Bool) (m k : M CronWorld A)
      → Only server max_reserved_time m
      → Only server max_reserved_time k
      → Only server max_reserved_time (if b then m else k)
  if-Only true m k om ok' = om
  if-Only false m k om ok' = ok'

  pub set-Only :
      (f : CronBackup → CronBackup)
      → ((cb : CronBackup) → (f cb).max_reserved_time ≡ cb.max_reserved_time)
      → Only server max_reserved_time (set_cron f)
  unfolding Only
  set-Only f kept w i = (kept w.cron ∙ i.0, i.1)

  -- A run that looks at the object first.
  pub read-Only :
      {A : Type 0} (f : CronBackup → M CronWorld A)
      → ((cb : CronBackup) → Only server max_reserved_time (f cb))
      → Only server max_reserved_time (λ w. f w.cron w)
  unfolding Only
  read-Only f k w i = k w.cron w i

  pub read_kept-Only :
      {A : Type 0} (f : CronBackup → M CronWorld A)
      → ((cb : CronBackup)
          → cb.max_reserved_time ≡ max_reserved_time
          → Only server max_reserved_time (f cb))
      → Only server max_reserved_time (λ w. f w.cron w)
  unfolding Only
  read_kept-Only f k w i = k w.cron i.0 w i

  pub done-Only : Only server max_reserved_time (return tt)
  done-Only = constant-Only (ok tt)

  judge_last-Only : (o : Outcome LastBackup) → Only server max_reserved_time (judge_last server o)
  unfolding judge_last
  judge_last-Only (ok b) =
      if-Only
        (is_condition_true b.conditions backup_complete
          || is_condition_true b.conditions backup_failed)
        (set_cron (keep_successful server b.time_completed)) (fail reconcile)
        (set-Only (keep_successful server b.time_completed) (λ _. refl))
        (constant-Only (err reconcile))
  judge_last-Only (err not_found) = done-Only
  judge_last-Only (err reconcile) = constant-Only (err reconcile)
  judge_last-Only (err job_failed) = constant-Only (err job_failed)
  judge_last-Only (err (other n)) = constant-Only (err (other n))
  judge_last-Only panic = constant-Only panic

  after_last-Only : (o : Option ℕ) → Only server max_reserved_time (after_last server o)
  after_last-Only none = done-Only
  after_last-Only (some name) =
      bind-Only (attempt (call_server server.backup (get_backup name))) (judge_last server)
        (attempt-Only (call_server server.backup (get_backup name))
          (request-Only server.backup (get_backup name) tt))
        judge_last-Only

  requeue-Only :
      (now : ℕ) (schedule : ℕ → ℕ) → Only server max_reserved_time (requeue server now schedule)
  unfolding Only
  requeue-Only now schedule w i = i

  start_due-Only :
      (now : ℕ) (schedule : ℕ → ℕ) (o : Outcome (Option ℕ))
      → Only server max_reserved_time (start_due server now schedule o)
  unfolding start_due create_next_backup
  start_due-Only now schedule (ok none) = requeue-Only now schedule
  start_due-Only now schedule (ok (some t)) =
      bind-Only (create_next_backup server t) _
        (bind-Only (call_server server.done (create_backup (server.backup_name t)))
          (λ _. return (server.backup_name t))
          (request-Only server.done (create_backup (server.backup_name t)) tt)
          (λ _. constant-Only (ok (server.backup_name t))))
        (λ name.
          bind-Only (set_cron (keep_started server name t)) (λ _. requeue server now schedule)
            (set-Only (keep_started server name t) (λ _. refl)) (λ _. requeue-Only now schedule))
  start_due-Only now schedule (err e) = constant-Only (ok none)
  start_due-Only now schedule panic = constant-Only panic

  run_schedule-Only :
      (now : ℕ) (o : Option (ℕ → ℕ)) → Only server max_reserved_time (run_schedule server now o)
  unfolding run_schedule
  run_schedule-Only now none = constant-Only (ok none)
  run_schedule-Only now (some schedule) =
      read-Only (λ cb. start_due server now schedule (next_schedule_time cb now schedule))
        (λ cb. start_due-Only now schedule (next_schedule_time cb now schedule))

  pub clock-Only : Only server max_reserved_time (read_clock server)
  clock-Only = request-Only (λ calls. ok (server.now calls)) clock tt

  pub sync-Only : Only server max_reserved_time (sync server)
  unfolding sync can_perform_next_backup
  sync-Only =
      read-Only
        (λ cb. if cb.deleting || cb.pause then return none else (do
          can_perform_next_backup server
          now ← call_server (λ calls. ok (server.now calls)) clock
          run_schedule server now (server.parse_standard cb.schedule)))
        (λ cb. if-Only (cb.deleting || cb.pause) (return none) _ (constant-Only (ok none)) (
          bind-Only (can_perform_next_backup server) _
            (read-Only (λ c. after_last server c.last_backup) (λ c. after_last-Only c.last_backup))
            (λ _.
              bind-Only (call_server (λ calls. ok (server.now calls)) clock) _ clock-Only
                (λ now. run_schedule-Only now (server.parse_standard cb.schedule)))))
