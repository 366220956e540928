-- ===== src/Scheduler/PodName/RoundTrip.antt =====
-- Printing a pod's name from its parent and ordinal, and reading it back.
use nebula_operator.Common.{
  ℕ, zero, suc, ◌+◌, ◌/◌, ◌%◌, ◌<◌, ◌≡◌, refl, ap, ◌∙◌, true, none, some, List, [], ◌∷◌, ◌++◌,
  arith, ltb, Bool-cases, inl, inr,
}
use nebula_operator.Common.Int.{pos}
use nebula_operator.Scheduler.PodName.{
  Name, all_digits, split_last_dash, sub_matches, decimal, int32_limit, get_parent_name_and_ordinal,
  show_digits, show_int, get_pod_name_by_ordinal,
}

decimal-show_digits :
    (f n : ℕ) (acc : List ℕ) → n < f → decimal 0 (show_digits f n acc) ≡ decimal n acc
unfolding show_digits
decimal-show_digits zero n acc h = elim h [ ]
decimal-show_digits (suc f) n acc h = elim (Bool-cases (ltb n 10)) [
  | inl small ↦ rw small (ap (λ k. decimal k acc) (ground arith))
  | inr large ↦ rw large (
      decimal-show_digits f (n / 10) ((48 + n % 10) ∷ acc) (ground arith)
      ∙ ap (λ k. decimal k acc) (ground arith))
]

all_digits-show_digits :
    (f n : ℕ) (acc : List ℕ) → all_digits acc ≡ true → all_digits (show_digits f n acc) ≡ true
unfolding show_digits
all_digits-show_digits zero n acc h = h
all_digits-show_digits (suc f) n acc h =
    ground (arith, all_digits-show_digits f (n / 10) ((48 + n % 10) ∷ acc))

-- A printed number is not empty.
show_digits-cons :
    (f n c : ℕ) (acc : List ℕ) → (d : ℕ) × (s : List ℕ) × (show_digits f n (c ∷ acc) ≡ d ∷ s)
unfolding show_digits
show_digits-cons zero n c acc = (c, acc, refl)
show_digits-cons (suc f) n c acc = elim (Bool-cases (ltb n 10)) [
  | inl small ↦ (48 + n % 10, c ∷ acc, rw small)
  | inr large ↦ rw large (show_digits-cons f (n / 10) (48 + n % 10) (c ∷ acc))
]

show_int-cons : (n : ℕ) → (d : ℕ) × (s : List ℕ) × (show_int (pos n) ≡ d ∷ s)
unfolding show_int show_digits
show_int-cons n = elim (Bool-cases (ltb n 10)) [
  | inl small ↦ (48 + n % 10, [], rw small)
  | inr large ↦ rw large (show_digits-cons n (n / 10) (48 + n % 10) [])
]

split_last_dash-digits : (d : List ℕ) → all_digits d ≡ true → split_last_dash d ≡ none
unfolding split_last_dash
split_last_dash-digits [] h = refl
split_last_dash-digits (c ∷ d) h = ground (arith, split_last_dash-digits d)

split_last_dash-append :
    (p d : Name) → all_digits d ≡ true → split_last_dash (p ++ (b'-' ∷ d)) ≡ some (p, d)
unfolding split_last_dash
split_last_dash-append [] d h = rw (split_last_dash-digits d h)
split_last_dash-append (c ∷ p) d h = rw (split_last_dash-append p d h)

sub_matches-append :
    (p : Name) (c : ℕ) (s : Name)
    → all_digits (c ∷ s) ≡ true
    → sub_matches (p ++ (b'-' ∷ c ∷ s)) ≡ some (p, c ∷ s)
unfolding sub_matches
sub_matches-append p c s h = rw (split_last_dash-append p (c ∷ s) h, sub_matches) (rw h)

all_digits-show_int : (n : ℕ) → all_digits (show_int (pos n)) ≡ true
unfolding show_int
all_digits-show_int n = all_digits-show_digits (suc n) n [] refl

decimal-show_int : (n : ℕ) → decimal 0 (show_int (pos n)) ≡ n
unfolding show_int
decimal-show_int n = decimal-show_digits (suc n) n [] (omega arith)

reads_back :
    (p : Name) (n d : ℕ) (s : Name)
    → n < int32_limit
    → show_int (pos n) ≡ d ∷ s
    → get_parent_name_and_ordinal (p ++ (b'-' ∷ show_int (pos n))) ≡ (p, pos n)
unfolding get_parent_name_and_ordinal
reads_back p n d s h e =
    rw (e, sub_matches-append p d s (rw e at (all_digits-show_int n)), get_parent_name_and_ordinal)
      (rw (rw e at (decimal-show_int n)) (ground arith))

-- The name printed for a parent and an ordinal of 32 bits reads back as that parent and ordinal,
-- whatever dashes and digits the parent's name has.
pub get_parent_name_and_ordinal-get_pod_name_by_ordinal :
    (p : Name) (n : ℕ)
    → n < int32_limit
    → get_parent_name_and_ordinal (get_pod_name_by_ordinal p (pos n)) ≡ (p, pos n)
unfolding get_pod_name_by_ordinal
get_parent_name_and_ordinal-get_pod_name_by_ordinal p n h =
    let (d, s, e) = show_int-cons n in reads_back p n d s h e
