-- ===== src/CronBackup/Schedule/Latest.antt =====
-- pkg/controller/cronbackup/cronbackup_manager.go: what the most recent schedule time is.
use nebula_operator.Common.{
  ℕ, zero, suc, ◌+◌, ◌-◌, ◌≤◌, ◌<◌, ◌≡◌, refl, sym, ap, ◌⊎◌, inl, inr, Bool, true, false, Option,
  none, some, arith, ltb, Bool-cases,
}
use mathlib.Core.Path.{subst}
use nebula_operator.Common.{◌*◌}
use nebula_operator.Storaged.Api.{second}
use nebula_operator.Common.Effect.{Outcome, ok}
use nebula_operator.CronBackup.Schedule.{
  to_seconds, latest, potential_earliest, missed_times, most_recent_schedule_time,
}

before : (a b : ℕ) → a < b → ltb a b ≡ true
before a b h = ground arith

module _ (next : ℕ → ℕ) (grows : (t : ℕ) → t < next t) (now : ℕ) where
  -- A time of the schedule that is not later than now, the time after it being later.
  abbrev pub IsLatest : ℕ → Type 0
  IsLatest m = (m ≤ now) × (now < next m) × ((t : ℕ) × (m ≡ next t))

  latest_ok :
      (fuel p t : ℕ) (found r : Option ℕ)
      → t ≡ next p
      → now < t + fuel
      → latest next now fuel t found ≡ r
      → ((now < t) × (found ≡ r)) ⊎ ((m : ℕ) × (r ≡ some m) × IsLatest m)
  unfolding latest
  latest_ok zero p t found r e enough h = inl (omega (arith, enough), h)
  latest_ok (suc fuel) p t found r e enough h = elim (Bool-cases (ltb now t)) [
    | inl y ↦ inl (ground arith, rw y at h)
    | inr n ↦
        elim (latest_ok fuel t (next t) (some t) r refl (omega (arith, grows t, enough))
          (rw n at h)) [
            | inl (later, f) ↦ inr (t, sym f, (ground arith, later, (p, e)))
            | inr l ↦ inr l
          ]
  ]

  abbrev time_of : Option ℕ → ℕ
  time_of (some t) = t
  time_of none = 0

  abbrev most_recent_of : Outcome (Option ℕ × Bool) → Option ℕ
  most_recent_of (ok (o, _)) = o
  most_recent_of _ = none

  missed_times_ok :
      (t1 between m : ℕ) (many : Bool)
      → missed_times next now t1 between ≡ ok (some m, many)
      → IsLatest m
  unfolding missed_times
  missed_times_ok t1 between m many h = elim (Bool-cases (ltb between 1)) [
    | inl y ↦ absurd (let k = rw y at h in ground arith)
    | inr n ↦
        let found = ap most_recent_of (rw n at h) in
        elim (latest_ok (suc now) (potential_earliest now t1 between) _ none (some m) refl
          (omega arith) found) [
            | inl (_, e) ↦ absurd (ground arith)
            | inr (m', e, l) ↦ subst IsLatest (ap time_of (sym e)) l
          ]
  ]

  -- If `most_recent_schedule_time` returns a time, it is a time of the schedule that is not later than
  -- now, and the next time of the schedule is later, for a schedule that always goes forward.
  pub most_recent_schedule_time-some :
      (earliest m : ℕ) (many : Bool)
      → most_recent_schedule_time next earliest now ≡ ok (some m, many)
      → IsLatest m
  unfolding most_recent_schedule_time
  most_recent_schedule_time-some earliest m many h = elim (Bool-cases (ltb now (next earliest))) [
    | inl y ↦ absurd (let k = rw y at h in ground arith)
    | inr n ↦ elim (Bool-cases (ltb now (next (next earliest)))) [
      | inl y ↦
          subst IsLatest (ap time_of (ap most_recent_of (rw (n, y) at h)))
            (ground arith, ground arith, (earliest, refl))
      | inr n' ↦
          missed_times_ok (next earliest) (to_seconds (next (next earliest) - next earliest)) m many
            (rw (n, n') at h)
    ]
  ]

-- A schedule with a fixed delay of whole seconds.
abbrev pub every : ℕ → ℕ → ℕ
every seconds t = t + seconds * second

-- What `mostRecentScheduleTime` returns for the schedule with this delay.
abbrev pub MostRecent : ℕ → ℕ → ℕ → Outcome (Option ℕ × Bool) → Type 0
MostRecent seconds earliest now r =
    ((now < every seconds earliest) × (r ≡ ok (none, false)))
    ⊎ ((m : ℕ) × (many : Bool) × (r ≡ ok (some m, many))
        × (earliest < m)
        × (m ≤ now)
        × (now < every seconds m))
