-- ===== src/Storaged/Leader/Peers.antt =====
-- pkg/controller/component/storaged_updater.go: the choice of the new leader.
use mathlib.Core.Logic.{◌↔◌}
use native.Mathlib.Decide.{dec_lt}
use native.Mathlib.Nat.{mod-eq_of_lt, mod_self}
use nebula_operator.Common.{
  ℕ, zero, suc, ◌+◌, ◌%◌, ◌<◌, ◌≤◌, ◌≡◌, ◌≢◌, refl, ap, ◌∙◌, inl, inr, true, false, none, some,
  List, [], ◌∷◌, arith, ◌==◌, ==_iff, get_elem?, length, contains, Bool-cases,
}
use nebula_operator.Storaged.Leader.{next_peer, get_new_leader_from_peers}

-- No peer occurs twice.
abbrev pub Distinct : List ℕ → Type 0
Distinct [] = Unit {0}
Distinct (p ∷ ps) = (contains ps p ≡ false) × Distinct ps

get_elem?_in :
    (xs : List ℕ) (i : ℕ)
    → i < length xs
    → (a : ℕ) × (get_elem? xs i ≡ some a) × (contains xs a ≡ true)
get_elem?_in [] i h = elim h [ ]
get_elem?_in (x ∷ xs) zero h = (x, refl, ground arith)
get_elem?_in (x ∷ xs) (suc i) h =
    let (a, e, c) = get_elem?_in xs i (omega arith) in (a, e, ground arith)

get_elem?-contains : (xs : List ℕ) (i a : ℕ) → get_elem? xs i ≡ some a → contains xs a ≡ true
get_elem?-contains [] i a h = absurd (ground arith)
get_elem?-contains (x ∷ xs) zero a h = ground arith
get_elem?-contains (x ∷ xs) (suc i) a h = ground (arith, get_elem?-contains xs i a h)

-- Two places of a list without repetitions hold different peers.
Distinct-places :
    (xs : List ℕ) (i j a : ℕ)
    → Distinct xs
    → get_elem? xs i ≡ some a
    → get_elem? xs j ≡ some a
    → i ≡ j
Distinct-places [] i j a d e f = absurd (ground arith)
Distinct-places (x ∷ xs) zero zero a d e f = refl
Distinct-places (x ∷ xs) zero (suc j) a d e f = absurd (ground (arith, get_elem?-contains xs j a f))
Distinct-places (x ∷ xs) (suc i) zero a d e f = absurd (ground (arith, get_elem?-contains xs i a e))
Distinct-places (x ∷ xs) (suc i) (suc j) a d e f = ap suc (Distinct-places xs i j a d.1 e f)

-- The loop finds the leader's place.
next_peer-place :
    (leader : ℕ) (peers rest : List ℕ) (i : ℕ)
    → contains rest leader ≡ true
    → (k : ℕ) × (get_elem? rest k ≡ some leader)
      × (next_peer leader peers i rest ≡ get_elem? peers ((i + k + 1) % length peers))
unfolding next_peer
next_peer-place leader peers [] i h = absurd (ground arith)
next_peer-place leader peers (p ∷ rest) i h = elim (Bool-cases (p == leader)) [
  | inl e ↦ (
    0,
    ap some ((==_iff p leader).0 e),
    rw e (ap (λ (n : ℕ). get_elem? peers (n % length peers)) (omega arith)),
  )
  | inr e ↦
      let (k, f, g) = next_peer-place leader peers rest (i + 1) (ground arith) in
      (suc k, f, rw e (g ∙ ap (λ (n : ℕ). get_elem? peers (n % length peers)) (omega arith)))
]

next_peer-none :
    (leader : ℕ) (peers rest : List ℕ) (i : ℕ)
    → contains rest leader ≡ false
    → next_peer leader peers i rest ≡ none
unfolding next_peer
next_peer-none leader peers [] i h = refl
next_peer-none leader peers (p ∷ rest) i h =
    ground (arith, next_peer-none leader peers rest (i + 1))

get_elem?-lt : (xs : List ℕ) (i a : ℕ) → get_elem? xs i ≡ some a → i < length xs
get_elem?-lt [] i a h = absurd (ground arith)
get_elem?-lt (x ∷ xs) zero a h = omega arith
get_elem?-lt (x ∷ xs) (suc i) a h = omega (arith, get_elem?-lt xs i a h)

mod_lt : (k n : ℕ) → k < n → (0 + k + 1) % n < n
mod_lt k n h = grind arith

mod_next : (k n : ℕ) → k < n → 2 ≤ n → (0 + k + 1) % n ≢ k
mod_next k n h two = elim (dec_lt (0 + k + 1) n) [
  | yes p ↦ λ e. omega (arith, mod-eq_of_lt p)
  | no p ↦ λ e. omega (arith, ap (λ (m : ℕ). m % n) (last p), mod_self n)
]
  where
    last : ¬ (0 + k + 1 < n) → 0 + k + 1 ≡ n
    last p = omega arith

-- If the leader is among at least two peers, none of them twice, the new leader is another peer.
pub get_new_leader_from_peers_other :
    (leader : ℕ) (peers : List ℕ)
    → contains peers leader ≡ true
    → Distinct peers
    → 2 ≤ length peers
    → (new : ℕ) × (get_new_leader_from_peers leader peers ≡ some new)
      × (contains peers new ≡ true)
      × (new ≢ leader)
unfolding get_new_leader_from_peers
get_new_leader_from_peers_other leader peers h d two =
    let (k, f, g) = next_peer-place leader peers peers 0 h in
    let (new, e, c) =
      get_elem?_in peers ((0 + k + 1) % length peers)
        (mod_lt k (length peers) (get_elem?-lt peers k leader f)) in
    (
      new,
      g ∙ e,
      c,
      λ same.
          mod_next k (length peers) (get_elem?-lt peers k leader f) two
            (Distinct-places peers ((0 + k + 1) % length peers) k leader d (e ∙ ap some same) f),
    )

-- There is no new leader, a nil that the transfer then dereferences, exactly when the leader is
-- not among the peers.
pub get_new_leader_from_peers-none :
    (leader : ℕ) (peers : List ℕ)
    → (get_new_leader_from_peers leader peers ≡ none) ↔ (contains peers leader ≡ false)
unfolding get_new_leader_from_peers
get_new_leader_from_peers-none leader peers = (
  (λ e. elim (Bool-cases (contains peers leader)) [
    | inl h ↦
        let (k, f, g) = next_peer-place leader peers peers 0 h in
        let (new, e', _) =
          get_elem?_in peers ((0 + k + 1) % length peers)
            (mod_lt k (length peers) (get_elem?-lt peers k leader f)) in
        cc
    | inr h ↦ h
  ]),
  next_peer-none leader peers peers 0,
)
