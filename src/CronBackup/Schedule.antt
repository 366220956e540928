-- ===== src/CronBackup/Schedule.antt =====
-- pkg/controller/cronbackup/cronbackup_manager.go: the most recent time at which a backup should have
-- been started. `next` is the schedule of the cron library. Times are nanoseconds, all of them late
-- enough that the differences below do not go under 0. The loop over the missed times has fuel for
-- one step in each nanosecond.
pub mod Latest
use nebula_operator.Common.{
  ℕ, zero, suc, ◌+◌, ◌-◌, ◌*◌, ◌/◌, Bool, true, false, Option, none, some, ltb, if◌then◌else◌,
}
use nebula_operator.Common.Effect.{Outcome, ok, err, Error, other}
use nebula_operator.Storaged.Api.{second}

-- `Round(time.Second).Seconds()`
abbrev pub to_seconds : ℕ → ℕ
to_seconds d = (d + second / 2) / second

-- `for t := next(potentialEarliest); !t.After(now); t = next(t) { mostRecentTime = t }`
unfoldable pub latest : (ℕ → ℕ) → ℕ → ℕ → ℕ → Option ℕ → Option ℕ
latest next now zero t most_recent = most_recent
latest next now (suc fuel) t most_recent =
    let rest = latest next now fuel (next t) (some t) in if ltb now t then most_recent else rest

-- The start of that loop, from the first time missed and the seconds between two times.
abbrev pub potential_earliest : ℕ → ℕ → ℕ → ℕ
potential_earliest now t1 between =
    t1 + ((now - t1) / second / between) * between * second - between * second

abbrev pub number_of_missed_schedules : ℕ → ℕ → ℕ → ℕ
number_of_missed_schedules now t1 between = (now - t1) / second / between + 1

-- What follows once two times were missed.
unfoldable pub missed_times : (ℕ → ℕ) → ℕ → ℕ → ℕ → Outcome (Option ℕ × Bool)
unfolding latest
missed_times next now t1 between =
    if ltb between 1
    then err (other 6)
    else ok (
      latest next now (suc now) (next (potential_earliest now t1 between)) none,
      ltb 100 (number_of_missed_schedules now t1 between),
    )

-- `mostRecentScheduleTime` without the earliest time, which it passes through: the most recent time
-- missed, and whether there were too many.
unfoldable pub most_recent_schedule_time : (ℕ → ℕ) → ℕ → ℕ → Outcome (Option ℕ × Bool)
unfolding missed_times
most_recent_schedule_time next earliest now =
    let t1 = next earliest in
    let t2 = next t1 in
    if ltb now t1
    then ok (none, false)
    else if ltb now t2
    then ok (some t1, false)
    else missed_times next now t1 (to_seconds (t2 - t1))
