-- ===== src/CronBackup/Expiry/Expired.antt =====
-- pkg/controller/cronbackup/cronbackup_control.go: which backups are deleted.
use nebula_operator.Common.{
  ℕ, ◌-◌, ◌≤◌, ◌<◌, ◌≡◌, refl, ◌⊎◌, inl, inr, Bool, true, false, not, List, [], ◌∷◌, arith, All,
  All-map, leb, if◌then◌else◌,
}
use mathlib.Core.Path.{subst}
use nebula_operator.CronBackup.Expiry.{
  Backup, is_finished, finished_backups, sort_backups_by_asc_order, unix, calculate_expired_backups,
  expired_backups,
}

abbrev pub Member : List Backup → Backup → Type 0
Member [] b = ⊥
Member (x ∷ xs) b = (x ≡ b) ⊎ Member xs b

-- Created, by the second, before the reserved time began.
abbrev pub IsExpired : ℕ → ℕ → Backup → Type 0
IsExpired now reserved_time b = unix b.creation_timestamp < unix (now - reserved_time)

abbrev pub IsDeletable : Backup → Type 0
IsDeletable b = (is_finished b ≡ true) × (b.deleting ≡ false)

-- The list is in the order of creation.
abbrev pub Ascending : List Backup → Type 0
Ascending [] = Unit
Ascending (b ∷ bs) = All (λ c. b.creation_timestamp ≤ c.creation_timestamp) bs × Ascending bs

Member-self : (bs : List Backup) → All (Member bs) bs
Member-self [] = tt
Member-self (b ∷ bs) =
    (inl refl, All-map (Member bs) (Member (b ∷ bs)) bs (λ c m. inr m) (Member-self bs))

finished_backups-IsDeletable :
    (P : Backup → Type 0) (bs : List Backup)
    → All P bs
    → All (λ b. P b × IsDeletable b) (finished_backups bs)
unfolding finished_backups
finished_backups-IsDeletable P [] h = tt
finished_backups-IsDeletable P (b ∷ bs) h =
    by_tests (is_finished b) b.deleting refl refl (finished_backups-IsDeletable P bs h.1)
  where
    by_tests :
        (f d : Bool)
        → is_finished b ≡ f
        → b.deleting ≡ d
        → All (λ b. P b × IsDeletable b) (finished_backups bs)
        → All
            (λ b. P b × IsDeletable b)
            (if not f
              then finished_backups bs
              else (if d then finished_backups bs else b ∷ finished_backups bs))
    by_tests false d e k rest = rest
    by_tests true true e k rest = rest
    by_tests true false e k rest = ((h.0, (e, k)), rest)

module _ (now reserved_time : ℕ) where
  calculate_expired_backups-All :
      (P : Backup → Type 0) (bs : List Backup)
      → All P bs
      → All
          (λ b. P b × IsExpired now reserved_time b)
          (calculate_expired_backups now reserved_time bs)
  unfolding calculate_expired_backups
  calculate_expired_backups-All P [] h = tt
  calculate_expired_backups-All P (b ∷ bs) h =
      by_test (leb (unix (now - reserved_time)) (unix b.creation_timestamp)) refl
        (calculate_expired_backups-All P bs h.1)
    where
      by_test :
          (t : Bool)
          → leb (unix (now - reserved_time)) (unix b.creation_timestamp) ≡ t
          → All
              (λ b. P b × IsExpired now reserved_time b)
              (calculate_expired_backups now reserved_time bs)
          → All
              (λ b. P b × IsExpired now reserved_time b)
              (if t then [] else b ∷ calculate_expired_backups now reserved_time bs)
      by_test true e rest = tt
      by_test false e rest = ((h.0, ground arith), rest)

  All-Member : (P : Backup → Type 0) (bs : List Backup) (b : Backup) → All P bs → Member bs b → P b
  All-Member P [] b h m = absurd m
  All-Member P (x ∷ xs) b h (inl e) = subst P e h.0
  All-Member P (x ∷ xs) b h (inr m) = All-Member P xs b h.1 m

  unix-≤ : (a b : ℕ) → a ≤ b → unix a ≤ unix b
  unix-≤ a b h = omega arith

  no_earlier :
      (x : Backup) (xs : List Backup) (b : Backup)
      → All (λ c. x.creation_timestamp ≤ c.creation_timestamp) xs
      → Member (x ∷ xs) b
      → x.creation_timestamp ≤ b.creation_timestamp
  no_earlier x xs b h (inl e) =
      subst (λ (y : Backup). x.creation_timestamp ≤ y.creation_timestamp) e (omega arith)
  no_earlier x xs b h (inr k) =
      All-Member (λ c. x.creation_timestamp ≤ c.creation_timestamp) xs b h k

  -- In a list in the order of creation, `calculateExpiredBackups` leaves out no expired backup.
  pub calculate_expired_backups_all :
      (bs : List Backup) (b : Backup)
      → Ascending bs
      → Member bs b
      → IsExpired now reserved_time b
      → Member (calculate_expired_backups now reserved_time bs) b
  unfolding calculate_expired_backups
  calculate_expired_backups_all [] b a m h = m
  calculate_expired_backups_all (x ∷ xs) b a m h =
      let earlier = no_earlier x xs b a.0 m in
      let kept = unix-≤ x.creation_timestamp b.creation_timestamp earlier in
      by_test (leb (unix (now - reserved_time)) (unix x.creation_timestamp)) refl kept
        (elim m [ inl e ↦ inl e | inr k ↦ inr (calculate_expired_backups_all xs b a.1 k h) ])
    where
      by_test :
          (t : Bool)
          → leb (unix (now - reserved_time)) (unix x.creation_timestamp) ≡ t
          → unix x.creation_timestamp ≤ unix b.creation_timestamp
          → (x ≡ b) ⊎ Member (calculate_expired_backups now reserved_time xs) b
          → Member (if t then [] else x ∷ calculate_expired_backups now reserved_time xs) b
      by_test true e k rest = absurd (ground arith)
      by_test false e k rest = rest

  -- Whatever members of its list the sorting returns, each backup that is deleted is of the list, is
  -- complete or failed, is not being deleted already, and was created before the reserved time began.
  pub expired_backups_ok :
      (sort : List Backup → List Backup)
      (sort_members : (P : Backup → Type 0) (l : List Backup) → All P l → All P (sort l))
      (bs : List Backup)
      → All
          (λ b. (Member bs b × IsDeletable b) × IsExpired now reserved_time b)
          (expired_backups sort now reserved_time bs)
  unfolding expired_backups sort_backups_by_asc_order
  expired_backups_ok sort sort_members bs =
      calculate_expired_backups-All (λ b. Member bs b × IsDeletable b) (sort (finished_backups bs))
        (sort_members _ (finished_backups bs)
          (finished_backups-IsDeletable (Member bs) bs (Member-self bs)))
