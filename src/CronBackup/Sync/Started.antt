-- ===== src/CronBackup/Sync/Started.antt =====
-- pkg/controller/cronbackup/cronbackup_manager.go: when a backup is started.
use nebula_operator.Common.{ℕ, ◌+◌, ◌≤◌, ◌<◌, ◌≡◌, ◌||◌, ◌⊎◌, true, Option, none, some, List, ◌∷◌}
use nebula_operator.Common.Int.{ℤ, sub_ℕ}
use nebula_operator.Common.Effect.{Outcome, ok, err, panic, not_found}
use nebula_operator.Condition.Status.{is_condition_true}
use nebula_operator.CronBackup.Sync.Due.{Forward}
use nebula_operator.CronBackup.Expiry.{backup_complete, backup_failed}
use nebula_operator.CronBackup.Sync.{
  CronBackup, CronServer, CronWorld, CronCall, LastBackup, get_backup, create_backup, clock,
  next_schedule_delta,
}

abbrev pub Schedules : CronServer → Type 0
Schedules server = (text : ℕ) (next : ℕ → ℕ) → server.parse_standard text ≡ some next → Forward next

-- The calls after the last backup is asked for.
abbrev pub asked : Option ℕ → List CronCall → List CronCall
asked none calls = calls
asked (some name) calls = get_backup name ∷ calls

-- The API server answers that the last backup, if there is one, is missing or has ended.
abbrev pub Over : CronServer → List CronCall → Option ℕ → Type 0
Over server calls none = Unit
Over server calls (some name) =
    (server.backup (get_backup name ∷ calls) ≡ err not_found)
    ⊎ ((b : LastBackup) × (server.backup (get_backup name ∷ calls) ≡ ok b)
        × ((is_condition_true b.conditions backup_complete
              || is_condition_true b.conditions backup_failed)
            ≡ true))

-- The recorded start, and the creation.
abbrev pub Start : Type 0
Start = Option ℕ × Option ℕ × ℕ

abbrev pub earliest_of : Start → ℕ
earliest_of start = elim (start.0) [ none ↦ start.2 | some t ↦ t ]

abbrev pub start_of : CronBackup → Start
start_of cb = (cb.last_schedule_time, cb.last_backup, cb.creation_timestamp)

abbrev pub SameStart : CronBackup → CronBackup → Type 0
SameStart cb cb' = start_of cb' ≡ start_of cb

-- After the calls, and at the time now, a backup was created and recorded for the last time of the
-- schedule, which is after the one before.
abbrev pub Started :
    CronServer → (ℕ → ℕ) → ℕ → List CronCall → Start → CronWorld → Option ℤ → Type 0
Started server next now calls start v r =
    (t : ℕ) × (v.cron.last_schedule_time ≡ some t)
    × (v.cron.last_backup ≡ some (server.backup_name t))
    × (v.calls ≡ create_backup (server.backup_name t) ∷ calls)
    × (earliest_of start < t)
    × (t ≤ now)
    × (now < next t)
    × (r ≡ some (sub_ℕ (next t + next_schedule_delta) now))

-- The start of a backup, when the one before is over.
abbrev pub StartedDue : CronServer → CronWorld → CronWorld → Option ℤ → Type 0
StartedDue server w v r =
    let calls : List CronCall = clock ∷ asked w.cron.last_backup w.calls in
    (next : ℕ → ℕ) × (server.parse_standard w.cron.schedule ≡ some next)
    × Over server w.calls w.cron.last_backup
    × Started server next (server.now calls) calls (start_of w.cron) v r

abbrev value_of : {A : Type 0} → A → Outcome A × CronWorld → A
value_of default (ok a, w) = a
value_of default (err e, w) = default
value_of default (panic, w) = default

-- The start after a run.
abbrev start_after : {A : Type 0} → Outcome A × CronWorld → Start
start_after p = start_of p.1.cron

abbrev calls_after : {A : Type 0} → Outcome A × CronWorld → List CronCall
calls_after p = p.1.calls
