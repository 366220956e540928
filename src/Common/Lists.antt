-- ===== src/Common/Lists.antt =====
-- Lists measured and indexed by native numbers, under the library's names, with a Boolean
-- membership test and equality of byte strings.
use Prim.Native.Nat.{ℕ, zero, suc, ◌+◌}
use mathlib.Core.Path.{◌≡◌, refl}
use mathlib.Core.List.{List, [], ◌∷◌, ◌++◌}
use mathlib.Core.Option.{Option, none, some}
use mathlib.Core.Bool.{Bool, true, false, ◌&&◌, ◌||◌}
use native.Mathlib.Omega.{arith}
use mathlib.Core.Logic.{◌⊎◌, inl, inr}
use nebula_operator.Common.Tests.{◌==◌, Bool-cases}

module _ {ℓ} {A : Type ℓ} where
  abbrev pub length : List A → ℕ
  length [] = 0
  length (x ∷ xs) = suc (length xs)

  abbrev pub get_elem? : List A → ℕ → Option A
  get_elem? [] i = none
  get_elem? (x ∷ xs) zero = some x
  get_elem? (x ∷ xs) (suc i) = get_elem? xs i

  pub length-append : (xs ys : List A) → length (xs ++ ys) ≡ length xs + length ys
  length-append [] ys = omega arith
  length-append (x ∷ xs) ys = omega (arith, length-append xs ys)

  -- Holds of every member.
  abbrev pub All {κ} : (A → Type κ) → List A → Type κ
  All P [] = Unit
  All P (x ∷ xs) = P x × All P xs

  pub All-append {κ} : (P : A → Type κ) (xs ys : List A) → All P xs → All P ys → All P (xs ++ ys)
  All-append P [] ys hx hy = hy
  All-append P (x ∷ xs) ys hx hy = (hx.0, All-append P xs ys hx.1 hy)

  pub All-map {κ μ} :
      (P : A → Type κ) (Q : A → Type μ) (xs : List A) → ((x : A) → P x → Q x) → All P xs → All Q xs
  All-map P Q [] f h = tt
  All-map P Q (x ∷ xs) f h = (f x h.0, All-map P Q xs f h.1)

-- The membership test of a list of numbers.
abbrev pub contains : List ℕ → ℕ → Bool
contains [] looking_for = false
contains (s ∷ ss) looking_for = looking_for == s || contains ss looking_for

pub contains-append_left :
    (xs ys : List ℕ) (a : ℕ) → contains xs a ≡ true → contains (xs ++ ys) a ≡ true
contains-append_left [] ys a h = absurd (ground arith)
contains-append_left (x ∷ xs) ys a h = ground (arith, contains-append_left xs ys a)

pub contains-append_self : (xs : List ℕ) (a : ℕ) → contains (xs ++ a ∷ []) a ≡ true
contains-append_self [] a = ground arith
contains-append_self (x ∷ xs) a = ground (arith, contains-append_self xs a)

pub contains-append_inv :
    (xs : List ℕ) (s a : ℕ) → contains (xs ++ s ∷ []) a ≡ true → (contains xs a ≡ true) ⊎ (a ≡ s)
contains-append_inv [] s a h = inr (ground arith)
contains-append_inv (x ∷ xs) s a h = elim (Bool-cases (a == x)) [
  | inl e ↦ inl (ground arith)
  | inr e ↦ elim (contains-append_inv xs s a (ground arith)) [
    | inl k ↦ inl (ground arith)
    | inr k ↦ inr k
  ]
]

-- Equality of byte strings.
abbrev pub same : List ℕ → List ℕ → Bool
same [] [] = true
same [] (d ∷ t) = false
same (c ∷ s) [] = false
same (c ∷ s) (d ∷ t) = c == d && same s t

pub same_eq : (s t : List ℕ) → same s t ≡ true → s ≡ t
same_eq [] [] h = refl
same_eq [] (d ∷ t) h = ground arith
same_eq (c ∷ s) [] h = ground arith
same_eq (c ∷ s) (d ∷ t) h = ground (arith, same_eq s t)

pub same_refl : (s : List ℕ) → same s s ≡ true
same_refl [] = refl
same_refl (c ∷ s) = ground (arith, same_refl s)
