-- ===== src/CronBackup/Sync/Due.antt =====
-- pkg/controller/cronbackup/cronbackup_manager.go: the time for which a backup is due.
use nebula_operator.Common.{
  ℕ, ◌+◌, ◌≤◌, ◌<◌, ◌≡◌, refl, ap, Bool, inl, inr, true, false, Option, none, some, arith, ltb,
  Bool-cases,
}
use mathlib.Core.Path.{subst}
use nebula_operator.Common.Int.{sub_ℕ}
use nebula_operator.Common.Effect.{Outcome, ok, err, panic}
use nebula_operator.CronBackup.Schedule.{most_recent_schedule_time}
use nebula_operator.CronBackup.Schedule.Latest.{IsLatest, most_recent_schedule_time-some}
use nebula_operator.CronBackup.Sync.{next_schedule_delta, due_time, requeue_from}

-- A schedule that always goes forward, and that gives later times after later ones.
abbrev pub Forward : (ℕ → ℕ) → Type 0
Forward next = ((t : ℕ) → t < next t) × ((s t : ℕ) → s ≤ t → next s ≤ next t)

module _ (next : ℕ → ℕ) (forward : Forward next) (earliest now : ℕ) where
  due_ok :
      (t : ℕ) (o : Outcome (Option ℕ × Bool))
      → most_recent_schedule_time next earliest now ≡ o
      → due_time now o ≡ ok (some t)
      → IsLatest next forward.0 now t
  due_ok t (ok (none, many)) e h = absurd (ground arith)
  due_ok t (ok (some m, many)) e h =
      let same_time : m ≡ t = ground arith in
      subst (IsLatest next forward.0 now) same_time
        (most_recent_schedule_time-some next forward.0 now earliest m many e)
  due_ok t (err x) e h = absurd (ground arith)
  due_ok t panic e h = absurd (ground arith)

  -- The first time after the earliest one is not later than now.
  due_first :
      (t : ℕ)
      → due_time now (most_recent_schedule_time next earliest now) ≡ ok (some t)
      → next earliest ≤ now
  unfolding most_recent_schedule_time
  due_first t h = elim (Bool-cases (ltb now (next earliest))) [
    | inl y ↦ absurd (let k = rw y at h in ground arith)
    | inr n ↦ ground arith
  ]

  pub due_after :
      (t : ℕ)
      → due_time now (most_recent_schedule_time next earliest now) ≡ ok (some t)
      → (earliest < t) × (t ≤ now) × (now < next t)
  due_after t h =
      let l = due_ok t (most_recent_schedule_time next earliest now) refl h in
      let f = due_first t h in (ground (arith, forward.1 t earliest), l.0, l.1)

  none_yet : (t : ℕ) → now < next t → most_recent_schedule_time next t now ≡ ok (none, false)
  unfolding most_recent_schedule_time
  none_yet t l = let e : ltb now (next t) ≡ true = ground arith in rw e refl

  -- After a start the next time of the schedule is asked for.
  pub requeue_after :
      (t : ℕ)
      → now < next t
      → sub_ℕ
          (next (requeue_from t now (most_recent_schedule_time next t now)) + next_schedule_delta)
          now
        ≡ sub_ℕ (next t + next_schedule_delta) now
  requeue_after t l =
      ap (λ o. sub_ℕ (next (requeue_from t now o) + next_schedule_delta) now) (none_yet t l)
