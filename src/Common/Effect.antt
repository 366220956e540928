-- ===== src/Common/Effect.antt =====
-- Go code that calls out, may return an error and may panic: a function from a state to an
-- outcome and the state that it leaves.

use mathlib.Core.Path.{◌≡◌, refl}
use native.Mathlib.Omega.{arith}
use Prim.Native.Nat.{ℕ}

-- The errors that the code tells apart: `apierrors.IsNotFound`, a `ReconcileError`,
-- `nebula.ErrJobStatusFailed`, and any other.
pub data Error : Type 0 where
  not_found reconcile job_failed : Error
  other : ℕ → Error

-- `panic` is a nil dereference or an index out of range.
pub data Outcome (A : Type 0) : Type 0 where
  ok : A → Outcome A
  err : Error → Outcome A
  panic : Outcome A

abbrev pub M : Type 0 → Type 0 → Type 0
M S A = S → Outcome A × S

abbrev pub then_run : {S A B : Type 0} → Outcome A × S → (A → M S B) → Outcome B × S
then_run (ok a, s) f = f a s
then_run (err e, s) f = (err e, s)
then_run (panic, s) f = (panic, s)

infixl 5 ◌>>=◌ ◌>>◌
abbrev pub ◌>>=◌ : {S A B : Type 0} → M S A → (A → M S B) → M S B
◌>>=◌ m f s = then_run (m s) f

abbrev pub ◌>>◌ : {S B : Type 0} → M S (Unit {0}) → M S B → M S B
m >> k = m >>= λ _. k

abbrev pub return : {S A : Type 0} → A → M S A
return a s = (ok a, s)

abbrev pub fail : {S A : Type 0} → Error → M S A
fail e s = (err e, s)

abbrev pub crash : {S A : Type 0} → M S A
crash s = (panic, s)

-- The call's error as a value, for code that looks at it.
abbrev pub attempt : {S A : Type 0} → M S A → M S (Outcome A)
attempt m s = keep (m s)
  where
    keep : {S A : Type 0} → Outcome A × S → Outcome (Outcome A) × S
    keep (ok a, s) = (ok (ok a), s)
    keep (err e, s) = (ok (err e), s)
    keep (panic, s) = (panic, s)

-- Inversion of a bind that returns.
pub >>=-eq-ok :
    {S A B : Type 0} (m : M S A) (f : A → M S B) (s t : S) (b : B)
    → (m >>= f) s ≡ (ok b, t)
    → (a : A) × (u : S) × (m s ≡ (ok a, u)) × (f a u ≡ (ok b, t))
>>=-eq-ok {S} {A} {B} m f s t b = go (m s)
  where
    go :
        (r : Outcome A × S)
        → then_run r f ≡ (ok b, t)
        → (a : A) × (u : S) × (r ≡ (ok a, u)) × (f a u ≡ (ok b, t))
    go (ok a, u) h = (a, u, refl, h)
    go (err e, u) h = absurd (ground arith)
    go (panic, u) h = absurd (ground arith)

pub attempt_ok :
    {S A : Type 0} (m : M S A) (s t : S) (a : A) → attempt m s ≡ (ok (ok a), t) → m s ≡ (ok a, t)
attempt_ok {S} {A} m s t a = go (m s)
  where
    go : (r : Outcome A × S) → attempt (λ _. r) r.1 ≡ (ok (ok a), t) → r ≡ (ok a, t)
    go (ok b, u) h = ground arith
    go (err e, u) h = absurd (ground arith)
    go (panic, u) h = absurd (ground arith)
