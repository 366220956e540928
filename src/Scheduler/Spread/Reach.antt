-- ===== src/Scheduler/Spread/Reach.antt =====
-- The scheduler binds pods one after the other, in any order that `Permit` lets pass, while the
-- rest of the cluster changes: a step relation, and the invariant of one group of three pods.
use nebula_operator.Common.{
  ℕ, ◌+◌, ◌*◌, ◌<◌, ◌≡◌, refl, sym, ap, ◌∙◌, ◌≢◌, inl, inr, Bool, true, false, ◌&&◌, Option, none,
  some, [], ◌∷◌, arith, same, same_eq, Bool-cases, if◌then◌else◌,
}
use nebula_operator.Common.Int.{ℤ}
use mathlib.Core.Path.{subst}
use nebula_operator.Scheduler.PodName.{
  Name, need_schedule, int32_limit, get_parent_name_and_ordinal,
}
use nebula_operator.Scheduler.PodName.RoundTrip.{
  get_parent_name_and_ordinal-get_pod_name_by_ordinal,
}
use nebula_operator.Scheduler.Cluster.{found, Pod, Listers, success}
use nebula_operator.Scheduler.Permit.{permit}
use nebula_operator.Scheduler.Spread.Placement.{
  placement, zone_at, Apart, PlacedApart, member, permit_first, permit_second,
}

-- The API server's record of the binding.
unfoldable pub bind_pod : Listers → Pod → Name → Listers
bind_pod c pod y = record c {
  get_pod = λ name ns.
      if same name pod.name && same ns pod.namespace
      then found (record pod { node_name = y })
      else c.get_pod name ns;
}

-- `bind`: the scheduler takes a pod that is not placed and not being deleted, and binds it once
-- `Permit` succeeds. `drift`: anything that moves no pod and no node label.
pub data Step (c d : Listers) : Type 0 where
  bind :
      (pod : Pod) (y : Name) (named : y ≢ [])
      → pod.deleting ≡ false
      → placement c pod.name pod.namespace ≡ none
      → (permit c pod y).0 ≡ success
      → d ≡ bind_pod c pod y
      → Step c d
  drift :
      ((name ns : Name) → placement d name ns ≡ placement c name ns)
      → ((y : Name) → zone_at d y ≡ zone_at c y)
      → Step c d

pub data Reach (c : Listers) : Listers → Type 0 where
  here : Reach c c
  next : {d e : Listers} → Reach c d → Step d e → Reach c e

placement-bind_pod :
    (c : Listers) (pod : Pod) (y : Name)
    → y ≢ []
    → pod.deleting ≡ false
    → (name ns : Name)
    → placement (bind_pod c pod y) name ns
      ≡ (if same name pod.name && same ns pod.namespace then some y else placement c name ns)
unfolding bind_pod
placement-bind_pod c pod [] h e name ns = absurd (h refl)
placement-bind_pod c pod (a ∷ y) h e name ns = ground arith

-- What holds of the placements of a group's three pods.
pub record Spread (c : Listers) (p₀ p₁ p₂ : Option Name) : Type 0 where
  pub first_waits : p₀ ≡ none → p₁ ≡ none
  pub second_waits : p₁ ≡ none → p₂ ≡ none
  pub apart_01 : (x y : Name) → p₀ ≡ some x → p₁ ≡ some y → Apart c x y
  pub apart_02 : (x y : Name) → p₀ ≡ some x → p₂ ≡ some y → Apart c x y
  pub apart_12 : (x y : Name) → p₁ ≡ some x → p₂ ≡ some y → Apart c x y

Spread-empty : (c : Listers) → Spread c none none none
Spread-empty c = record {
  first_waits = λ e. refl;
  second_waits = λ e. refl;
  apart_01 = λ x y e f. cc;
  apart_02 = λ x y e f. cc;
  apart_12 = λ x y e f. cc;
}

some_eq : {x y : Name} → some x ≡ some y → x ≡ y
some_eq e = cc

Apart-moved :
    (c : Listers) (x y x' y' : Name) {p p' : Option Name}
    → Apart c x y
    → p ≡ some x
    → p' ≡ some y
    → p ≡ some x'
    → p' ≡ some y'
    → Apart c x' y'
Apart-moved c x y x' y' a e e' f f' =
    subst (λ v. Apart c x' v) (some_eq (sym e' ∙ f'))
      (subst (λ v. Apart c v y) (some_eq (sym e ∙ f)) a)

Spread-anchor :
    (c : Listers) (y : Name) (p₁ p₂ : Option Name) → Spread c none p₁ p₂ → Spread c (some y) p₁ p₂
Spread-anchor c y p₁ p₂ s =
    let e₁ = s.first_waits refl in
    let e₂ = s.second_waits e₁ in
    rw (e₁, e₂)
      (record {
        first_waits = λ e. refl;
        second_waits = λ e. refl;
        apart_01 = λ x y e f. cc;
        apart_02 = λ x y e f. cc;
        apart_12 = λ x y e f. cc;
      })

Spread-first :
    (c : Listers) (y : Name) (p₀ p₂ : Option Name)
    → PlacedApart c p₀ y
    → Spread c p₀ none p₂
    → Spread c p₀ (some y) p₂
Spread-first c y p₀ p₂ (x, e, a) s =
    let e₂ = s.second_waits refl in
    record {
      first_waits = λ f. cc;
      second_waits = λ f. cc;
      apart_01 = λ x' y' f g. Apart-moved c x y x' y' a e refl f g;
      apart_02 = λ x' y' f g. cc;
      apart_12 = λ x' y' f g. cc;
    }

Spread-second :
    (c : Listers) (y : Name) (p₀ p₁ : Option Name)
    → PlacedApart c p₀ y
    → PlacedApart c p₁ y
    → Spread c p₀ p₁ none
    → Spread c p₀ p₁ (some y)
Spread-second c y p₀ p₁ (x, e, a) (x', e', a') s = record {
  first_waits = s.first_waits;
  second_waits = λ f. cc;
  apart_01 = s.apart_01;
  apart_02 = λ v w f g. Apart-moved c x y v w a e refl f g;
  apart_12 = λ v w f g. Apart-moved c x' y v w a' e' refl f g;
}

-- Only the placements and the zone labels matter.
Spread-transfer :
    (c d : Listers) (p₀ p₁ p₂ : Option Name)
    → ((y : Name) → zone_at d y ≡ zone_at c y)
    → Spread c p₀ p₁ p₂
    → Spread d p₀ p₁ p₂
Spread-transfer c d p₀ p₁ p₂ z s = record {
  first_waits = s.first_waits;
  second_waits = s.second_waits;
  apart_01 = λ x y e f w g h. s.apart_01 x y e f w (sym (z x) ∙ g) (sym (z y) ∙ h);
  apart_02 = λ x y e f w g h. s.apart_02 x y e f w (sym (z x) ∙ g) (sym (z y) ∙ h);
  apart_12 = λ x y e f w g h. s.apart_12 x y e f w (sym (z x) ∙ g) (sym (z y) ∙ h);
}

member-injective :
    (parent : Name) (q i j : ℕ)
    → 3 * q + 2 < int32_limit
    → i < 3
    → j < 3
    → member parent q i ≡ member parent q j
    → i ≡ j
member-injective parent q i j small hi hj e =
    let pairs =
      sym (get_parent_name_and_ordinal-get_pod_name_by_ordinal parent (3 * q + i) (omega arith))
      ∙ (ap get_parent_name_and_ordinal e
          ∙ get_parent_name_and_ordinal-get_pod_name_by_ordinal parent (3 * q + j) (omega arith)) in
    ground (arith, ap (λ (v : Name × ℤ). v.1) pairs)

-- A binding of one pod leaves the placement of another.
placement-other :
    (c : Listers) (pod : Pod) (y : Name)
    → y ≢ []
    → pod.deleting ≡ false
    → (name ns : Name) → (same name pod.name && same ns pod.namespace) ≡ false
    → placement (bind_pod c pod y) name ns ≡ placement c name ns
placement-other c pod y h e name ns f = rw (placement-bind_pod c pod y h e name ns, f)

module _ (ns parent : Name) (q : ℕ) (small : 3 * q + 2 < int32_limit)
    (scheduled_here : need_schedule parent ≡ true) where
  abbrev Inv : Listers → Type 0
  Inv c =
      Spread c (placement c (member parent q 0) ns) (placement c (member parent q 1) ns)
        (placement c (member parent q 2) ns)

  module _ (c : Listers) (pod : Pod) (y : Name) (named : y ≢ []) (alive : pod.deleting ≡ false)
      (free : placement c pod.name pod.namespace ≡ none) where
    abbrev hit : ℕ → Bool
    hit i = same (member parent q i) pod.name && same ns pod.namespace

    hit_eq : (i : ℕ) → hit i ≡ true → (member parent q i ≡ pod.name) × (ns ≡ pod.namespace)
    hit_eq i h = (
      same_eq (member parent q i) pod.name (ground arith),
      same_eq ns pod.namespace (ground arith),
    )

    hit_once : (i j : ℕ) → i < 3 → j < 3 → i ≢ j → hit i ≡ true → hit j ≡ false
    hit_once i j hi hj n h = elim (Bool-cases (hit j)) [
      | inl e ↦
          absurd
            (n (member-injective parent q i j small hi hj ((hit_eq i h).0 ∙ sym (hit_eq j e).0)))
      | inr e ↦ e
    ]

    placement-hit :
        (i : ℕ) → hit i ≡ true → placement (bind_pod c pod y) (member parent q i) ns ≡ some y
    placement-hit i h = rw (placement-bind_pod c pod y named alive (member parent q i) ns, h)

    placement-free : (i : ℕ) → hit i ≡ true → placement c (member parent q i) ns ≡ none
    placement-free i h = rw ((hit_eq i h).0, (hit_eq i h).1) free

    placement-kept :
        (i : ℕ)
        → hit i ≡ false
        → placement (bind_pod c pod y) (member parent q i) ns ≡ placement c (member parent q i) ns
    placement-kept i h = placement-other c pod y named alive (member parent q i) ns h

    bind-Inv :
        (permit c pod y).0 ≡ success
        → Inv c
        → Spread c
            (placement (bind_pod c pod y) (member parent q 0) ns)
            (placement (bind_pod c pod y) (member parent q 1) ns)
            (placement (bind_pod c pod y) (member parent q 2) ns)
    bind-Inv passed s = elim (Bool-cases (hit 0)) [
      | inl h ↦
          rw
            (
              placement-hit 0 h,
              placement-kept 1 (hit_once 0 1 (omega arith) (omega arith) (omega arith) h),
              placement-kept 2 (hit_once 0 2 (omega arith) (omega arith) (omega arith) h),
            )
            (Spread-anchor c y _ _ (rw (placement-free 0 h) at s))
      | inr m₀ ↦ elim (Bool-cases (hit 1)) [
        | inl h ↦
            rw
              (
                placement-kept 0 m₀,
                placement-hit 1 h,
                placement-kept 2 (hit_once 1 2 (omega arith) (omega arith) (omega arith) h),
              )
              (Spread-first c y _ _
                (permit_first c ns parent q small scheduled_here pod y (sym (hit_eq 1 h).1)
                  (sym (hit_eq 1 h).0) passed)
                (rw (placement-free 1 h) at s))
        | inr m₁ ↦ elim (Bool-cases (hit 2)) [
          | inl h ↦
              let (a₀, a₁) =
                permit_second c ns parent q small scheduled_here pod y (sym (hit_eq 2 h).1)
                  (sym (hit_eq 2 h).0) passed in
              rw (placement-kept 0 m₀, placement-kept 1 m₁, placement-hit 2 h)
                (Spread-second c y _ _ a₀ a₁ (rw (placement-free 2 h) at s))
          | inr m₂ ↦ rw (placement-kept 0 m₀, placement-kept 1 m₁, placement-kept 2 m₂) s
        ]
      ]
    ]

  zone_at-bind_pod :
      (c : Listers) (pod : Pod) (y x : Name) → zone_at (bind_pod c pod y) x ≡ zone_at c x
  unfolding bind_pod
  zone_at-bind_pod c pod y x = refl

  Step-Inv : {c d : Listers} → Step c d → Inv c → Inv d
  Step-Inv {c} {d} (bind pod y named alive free passed e) s = rw e (
      Spread-transfer c (bind_pod c pod y) _ _ _ (zone_at-bind_pod c pod y)
        (bind-Inv c pod y named alive free passed s))
  Step-Inv {c} {d} (drift moved zones) s = Spread-transfer c d _ _ _ zones (
      rw (moved (member parent q 0) ns, moved (member parent q 1) ns, moved (member parent q 2) ns)
        s)

  Reach-Inv : {c d : Listers} → Inv c → Reach c d → Inv d
  Reach-Inv s here = s
  Reach-Inv s (next r t) = Step-Inv t (Reach-Inv s r)

  -- Take a StatefulSet whose name has "graphd" or "storaged" in it, and its pods with the ordinals
  -- 3q, 3q + 1 and 3q + 2 (of 32 bits). From a state where none of the three is placed, however
  -- the scheduler binds pods that `Permit` lets pass and whatever else changes without moving a
  -- pod or a node's label: the second is placed only with the first, the third only with the
  -- second, and any two of them that are placed on labelled nodes are in different zones.
  pub Reach-Spread :
      {c d : Listers}
      → placement c (member parent q 0) ns ≡ none
      → placement c (member parent q 1) ns ≡ none
      → placement c (member parent q 2) ns ≡ none
      → Reach c d
      → Spread d
          (placement d (member parent q 0) ns)
          (placement d (member parent q 1) ns)
          (placement d (member parent q 2) ns)
  Reach-Spread {c} e₀ e₁ e₂ r = Reach-Inv (rw (e₀, e₁, e₂) (Spread-empty c)) r
