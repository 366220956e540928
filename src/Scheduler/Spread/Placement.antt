-- ===== src/Scheduler/Spread/Placement.antt =====
-- Where a pod is placed, and what a successful `Permit` or `Filter` says of the pods before it.
use nebula_operator.Common.{
  ℕ, ◌+◌, ◌-◌, ◌*◌, ◌%◌, ◌<◌, ◌≤◌, ◌≡◌, refl, ◌≢◌, inl, inr, true, false, Option, none, some, [],
  ◌∷◌, ◌++◌, arith, same, same_refl, Bool-cases, if◌then◌else◌,
}
use nebula_operator.Common.Int.{pos, sub_ℕ}
use nebula_operator.Scheduler.PodName.{
  Name, starts_with, has_part, graphd, storaged, need_schedule, int32_limit,
  get_pod_name_by_ordinal,
}
use nebula_operator.Scheduler.PodName.RoundTrip.{
  get_parent_name_and_ordinal-get_pod_name_by_ordinal,
}
use nebula_operator.Scheduler.Cluster.{
  Lookup, found, missing, failed, Pod, Node, Listers, Status, success, available_zones,
  unschedulable, unschedulable_and_unresolvable, is_pod_scheduled, or_status,
}
use nebula_operator.Scheduler.Permit.{
  permit, permit_group, permit_anchor, permit_sibling, zone_or_empty, at_once, assumed_zone_of,
}

-- The node of a pod that is scheduled.
abbrev pub placement_of : Lookup Pod → Option Name
placement_of (found p) = if is_pod_scheduled (found p) then some p.node_name else none
placement_of missing = none
placement_of failed = none

abbrev pub placement : Listers → Name → Name → Option Name
placement c name ns = placement_of (c.get_pod name ns)

abbrev zone_of : Lookup Node → Option Name
zone_of (found n) = n.zone
zone_of missing = none
zone_of failed = none

-- The zone label of a node.
abbrev pub zone_at : Listers → Name → Option Name
zone_at c node = zone_of (c.get_node node)

-- Two nodes do not carry the same zone label.
abbrev pub Apart : Listers → Name → Name → Type 0
Apart c x y = (z : Name) → zone_at c x ≡ some z → zone_at c y ≢ some z

-- The pod is placed, and not in the zone of the node `y`.
abbrev pub PlacedApart : Listers → Option Name → Name → Type 0
PlacedApart c p y = (x : Name) × (p ≡ some x) × Apart c x y

differ :
    (m n : Lookup Node)
    → same (zone_or_empty (zone_of m)) (zone_or_empty (zone_of n)) ≡ false
    → (z : Name) → zone_of m ≡ some z
    → zone_of n ≢ some z
differ m n h z e f = ground (arith, same_refl z)

nodes_ok :
    (assumed n : Lookup Node) (rest : Status × ℕ)
    → (or_status assumed at_once (λ a. or_status n at_once (λ k.
        if same (zone_or_empty k.zone) (zone_or_empty a.zone)
        then at_once unschedulable
        else rest))).0
      ≡ success
    → ((z : Name) → zone_of n ≡ some z → zone_of assumed ≢ some z) × (rest.0 ≡ success)
nodes_ok missing n rest h = absurd (ground arith)
nodes_ok failed n rest h = absurd (ground arith)
nodes_ok (found a) missing rest h = absurd (ground arith)
nodes_ok (found a) failed rest h = absurd (ground arith)
nodes_ok (found a) (found k) rest h =
    elim (Bool-cases (same (zone_or_empty k.zone) (zone_or_empty a.zone))) [
      | inl e ↦ absurd (ground arith)
      | inr e ↦ (differ (found k) (found a) e, rw e at h)
    ]

permit_anchor_ok :
    (c : Listers) (y : Name) (a : Lookup Pod) (rest : Status × ℕ)
    → (permit_anchor c y a rest).0 ≡ success
    → PlacedApart c (placement_of a) y × (rest.0 ≡ success)
unfolding permit_anchor
permit_anchor_ok c y failed rest h = absurd (ground arith)
permit_anchor_ok c y missing rest h = absurd (ground arith)
permit_anchor_ok c y (found p) rest h = elim (Bool-cases (is_pod_scheduled (found p))) [
  | inl e ↦
      let (apart, passed) = nodes_ok (c.get_node y) (c.get_node p.node_name) rest (rw e at h) in
      ((p.node_name, rw e, apart), passed)
  | inr e ↦ absurd (ground arith)
]

sibling_ok :
    (n : Lookup Node) (assumed : Lookup Node)
    → (or_status n at_once (λ k. elim k.zone [
      | none ↦ at_once unschedulable_and_unresolvable
      | some z ↦ if same z (assumed_zone_of assumed) then at_once unschedulable else at_once success
    ])).0
      ≡ success
    → (z : Name) → zone_of n ≡ some z
    → zone_of assumed ≢ some z
sibling_ok missing m h z e f = ground arith
sibling_ok failed m h z e f = ground arith
sibling_ok (found k) missing h z e f = ground arith
sibling_ok (found k) failed h z e f = ground arith
sibling_ok (found k) (found a) h z e f = ground (arith, same_refl z)

permit_sibling_ok :
    (c : Listers) (y : Name) (a : Lookup Pod)
    → (permit_sibling c (assumed_zone_of (c.get_node y)) a).0 ≡ success
    → PlacedApart c (placement_of a) y
unfolding permit_sibling
permit_sibling_ok c y failed h = absurd (ground arith)
permit_sibling_ok c y missing h = absurd (ground arith)
permit_sibling_ok c y (found p) h = elim (Bool-cases (is_pod_scheduled (found p))) [
  | inl e ↦ (p.node_name, rw e, sibling_ok (c.get_node p.node_name) (c.get_node y) (rw e at h))
  | inr e ↦ absurd (ground arith)
]

-- The pod with remainder `i` of the group `q` of a StatefulSet.
abbrev pub member : Name → ℕ → ℕ → Name
member parent q i = get_pod_name_by_ordinal parent (pos (3 * q + i))

starts_with-append : (w p s : Name) → starts_with w p ≡ true → starts_with w (p ++ s) ≡ true
starts_with-append [] p s h = refl
starts_with-append (c ∷ w) [] s h = absurd (ground arith)
starts_with-append (c ∷ w) (d ∷ p) s h = ground (arith, starts_with-append w p s)

has_part-append : (p s w : Name) → w ≢ [] → has_part p w ≡ true → has_part (p ++ s) w ≡ true
has_part-append [] s [] n h = absurd (n refl)
has_part-append [] s (c ∷ w) n h = absurd (ground arith)
has_part-append (d ∷ p) s w n h =
    ground (arith, starts_with-append w (d ∷ p) s, has_part-append p s w n)

need_schedule-append : (p s : Name) → need_schedule p ≡ true → need_schedule (p ++ s) ≡ true
unfolding need_schedule
need_schedule-append p s h =
    ground (arith, has_part-append p s graphd (λ e. cc), has_part-append p s storaged (λ e. cc))

need_schedule-member :
    (parent : Name) (q i : ℕ)
    → need_schedule parent ≡ true
    → need_schedule (member parent q i) ≡ true
unfolding get_pod_name_by_ordinal
need_schedule-member parent q i h = need_schedule-append parent _ h

mod-member : (q i : ℕ) → i < 3 → (3 * q + i) % available_zones ≡ i
mod-member q i h = omega arith

sub-member : (q i j : ℕ) → j ≤ i → sub_ℕ (3 * q + i) j ≡ pos (3 * q + (i - j))
sub-member q i j h = ground arith

module _ (c : Listers) (ns parent : Name) (q : ℕ) (small : 3 * q + 2 < int32_limit)
    (scheduled_here : need_schedule parent ≡ true) (pod : Pod) (y : Name)
    (same_namespace : pod.namespace ≡ ns) where
  permit-member :
      (i : ℕ)
      → i < 3
      → pod.name ≡ member parent q i
      → permit c pod y ≡ permit_group c ns y (parent, pos (3 * q + i))
  unfolding permit
  permit-member i h e = rw (
    e,
    same_namespace,
    need_schedule-member parent q i scheduled_here,
    get_parent_name_and_ordinal-get_pod_name_by_ordinal parent (3 * q + i) (omega arith),
  )

  -- A permitted pod with remainder 1 keeps off the zone of its anchor, which is placed.
  pub permit_first :
      pod.name ≡ member parent q 1
      → (permit c pod y).0 ≡ success
      → PlacedApart c (placement c (member parent q 0) ns) y
  unfolding permit_group
  permit_first e h =
      (permit_anchor_ok c y (c.get_pod (member parent q 0) ns) (at_once success) (
        rw
          (
            permit-member 1 (omega arith) e,
            permit_group,
            mod-member q 1 (omega arith),
            sub-member q 1 1 (omega arith),
          )
          at h)).0

  -- With remainder 2 it keeps off the zones of its anchor and its sibling, which are placed.
  pub permit_second :
      pod.name ≡ member parent q 2
      → (permit c pod y).0 ≡ success
      → PlacedApart c (placement c (member parent q 0) ns) y
        × PlacedApart c (placement c (member parent q 1) ns) y
  unfolding permit_group
  permit_second e h =
      let (first, rest) =
        permit_anchor_ok c y (c.get_pod (member parent q 0) ns)
          (permit_sibling c (assumed_zone_of (c.get_node y)) (c.get_pod (member parent q 1) ns))
          (rw
            (
              permit-member 2 (omega arith) e,
              permit_group,
              mod-member q 2 (omega arith),
              sub-member q 2 2 (omega arith),
              sub-member q 2 1 (omega arith),
            )
            at h) in
      (first, permit_sibling_ok c y (c.get_pod (member parent q 1) ns) rest)
