-- ===== src/Scheduler/Filter/Apart.antt =====
-- pkg/scheduler/nodezone/node_zone.go: what a node that passes `Filter` satisfies.
use nebula_operator.Common.{
  ℕ, ◌+◌, ◌-◌, ◌*◌, ◌%◌, ◌<◌, ◌≤◌, ◌≡◌, ◌≢◌, inl, inr, true, some, List, [], arith, same_refl,
  Bool-cases, Option-cases,
}
use nebula_operator.Common.Int.{ℤ, pos, sub_ℕ}
use nebula_operator.Common.Effect.{Outcome, ok}
use nebula_operator.Scheduler.PodName.{
  Name, int32_limit, get_parent_name_and_ordinal, get_pod_name_by_ordinal,
}
use nebula_operator.Scheduler.PodName.RoundTrip.{
  get_parent_name_and_ordinal-get_pod_name_by_ordinal,
}
use nebula_operator.Scheduler.Cluster.{
  Lookup, found, missing, failed, Pod, Node, Listers, Status, success, available_zones,
  is_pod_scheduled,
}
use nebula_operator.Scheduler.Zones.{get_topology_zones}
use nebula_operator.Scheduler.Filter.{
  filter, filter_group, anchor_node, check_anchor, check_sibling, mapped_zone,
}

-- A pod that is placed is not on a node with the label `z`.
abbrev pub OffZone : Listers → Lookup Pod → Name → Type 0
OffZone c failed z = Unit
OffZone c missing z = Unit
OffZone c (found p) z =
    is_pod_scheduled (found p) ≡ true
    → (n : Node) → c.get_node p.node_name ≡ found n
    → n.zone ≢ some z

check_sibling-OffZone :
    (c : Listers) (z : Name) (a : Lookup Pod) → check_sibling c z a ≡ ok success → OffZone c a z
unfolding check_sibling
check_sibling-OffZone c z failed h = tt
check_sibling-OffZone c z missing h = tt
check_sibling-OffZone c z (found p) h = λ s n e f. ground (arith, same_refl z)

anchor_node_ok :
    (zones : List Name) (z : Name) (r : ℤ) (looked : Lookup Node) (rest : Outcome Status)
    → anchor_node zones z r looked rest ≡ ok success
    → ((n : Node) → looked ≡ found n → n.zone ≢ some z) × (rest ≡ ok success)
anchor_node_ok zones z r missing rest h = absurd (ground arith)
anchor_node_ok zones z r failed rest h = absurd (ground arith)
anchor_node_ok zones z r (found k) rest h = ((λ n e f. ground (arith, same_refl z)), ground arith)

check_anchor-OffZone :
    (c : Listers) (zones : List Name) (z : Name) (r : ℤ) (a : Lookup Pod) (rest : Outcome Status)
    → check_anchor c zones z r a rest ≡ ok success
    → OffZone c a z × (rest ≡ ok success)
unfolding check_anchor
check_anchor-OffZone c zones z r failed rest h = absurd (ground arith)
check_anchor-OffZone c zones z r missing rest h = (tt, h)
check_anchor-OffZone c zones z r (found p) rest h = elim (Bool-cases (is_pod_scheduled (found p))) [
  | inl e ↦
      let (off, passed) = anchor_node_ok zones z r (c.get_node p.node_name) rest (rw e at h) in
      ((λ s n looked. off n looked), passed)
  | inr e ↦ ((λ s n looked f. ground arith), rw e at h)
]

sibling_of_first : (q : ℕ) → (3 * q + 1) + 1 ≡ 3 * q + 2
sibling_of_first q = omega arith

mod_first : (q : ℕ) → (3 * q + 1) % available_zones ≡ 1
mod_first q = omega arith

mod_second : (q : ℕ) → (3 * q + 2) % available_zones ≡ 2
mod_second q = omega arith

sub-member : (q i j : ℕ) → j ≤ i → sub_ℕ (3 * q + i) j ≡ pos (3 * q + (i - j))
sub-member q i j h = ground arith

filter_group_first :
    (c : Listers) (ns parent z : Name) (zones : List Name) (q : ℕ)
    → filter_group c ns z zones (parent, pos (3 * q + 1)) ≡ ok success
    → OffZone c (c.get_pod (get_pod_name_by_ordinal parent (pos (3 * q + 0))) ns) z
      × OffZone c (c.get_pod (get_pod_name_by_ordinal parent (pos (3 * q + 2))) ns) z
unfolding filter_group
filter_group_first c ns parent z zones q h =
    let (off, rest) =
      check_anchor-OffZone c zones z (pos 1)
        (c.get_pod (get_pod_name_by_ordinal parent (pos (3 * q + 0))) ns)
        (check_sibling c z (c.get_pod (get_pod_name_by_ordinal parent (pos (3 * q + 2))) ns))
        (rw (mod_first q, sub-member q 1 1 (omega arith), sibling_of_first q) at h) in
    (off, check_sibling-OffZone c z _ rest)

filter_group_second :
    (c : Listers) (ns parent z : Name) (zones : List Name) (q : ℕ)
    → filter_group c ns z zones (parent, pos (3 * q + 2)) ≡ ok success
    → OffZone c (c.get_pod (get_pod_name_by_ordinal parent (pos (3 * q + 0))) ns) z
      × OffZone c (c.get_pod (get_pod_name_by_ordinal parent (pos (3 * q + 1))) ns) z
unfolding filter_group
filter_group_second c ns parent z zones q h =
    let (off, rest) =
      check_anchor-OffZone c zones z (pos 2)
        (c.get_pod (get_pod_name_by_ordinal parent (pos (3 * q + 0))) ns)
        (check_sibling c z (c.get_pod (get_pod_name_by_ordinal parent (pos (3 * q + 1))) ns))
        (rw (mod_second q, sub-member q 2 2 (omega arith), sub-member q 2 1 (omega arith)) at h) in
    (off, check_sibling-OffZone c z _ rest)

-- Once no zone is mapped to the pod, success comes from the look at the group.
filter-filter_group :
    (c : Listers) (state : List (Name × Name)) (pod : Pod) (n : Node) (z : Name)
    → n.zone ≡ some z
    → mapped_zone state pod.name ≡ []
    → filter c (some state) pod n ≡ ok success
    → (zones : List Name) × (get_topology_zones c.node_infos ≡ some zones)
      × (filter_group c pod.namespace z zones (get_parent_name_and_ordinal pod.name) ≡ ok success)
unfolding filter
filter-filter_group c state pod n z e f h = elim (Option-cases (get_topology_zones c.node_infos)) [
  | inl g ↦ absurd (ground arith)
  | inr (zones, g) ↦ (zones, g, rw (e, f, g) at h)
]

module _ (c : Listers) (state : List (Name × Name)) (pod : Pod) (n : Node) (z parent : Name) (q : ℕ)
    (small : 3 * q + 2 < int32_limit) (labelled : n.zone ≡ some z)
    (unmapped : mapped_zone state pod.name ≡ []) where
  -- A node that passes `Filter` for a pod with remainder 1, to which no zone is mapped, is in
  -- another zone than the nodes of the pods with remainders 0 and 2 that are placed.
  pub filter_first :
      pod.name ≡ get_pod_name_by_ordinal parent (pos (3 * q + 1))
      → filter c (some state) pod n ≡ ok success
      → OffZone c (c.get_pod (get_pod_name_by_ordinal parent (pos (3 * q + 0))) pod.namespace) z
        × OffZone c (c.get_pod (get_pod_name_by_ordinal parent (pos (3 * q + 2))) pod.namespace) z
  filter_first e h =
      let (zones, _, passed) = filter-filter_group c state pod n z labelled unmapped h in
      filter_group_first c pod.namespace parent z zones q (
        rw (e, get_parent_name_and_ordinal-get_pod_name_by_ordinal parent (3 * q + 1) (omega arith))
          at passed)

  -- A node that passes `Filter` for a pod with remainder 2, to which no zone is mapped, is in
  -- another zone than the nodes of the pods with remainders 0 and 1 that are placed.
  pub filter_second :
      pod.name ≡ get_pod_name_by_ordinal parent (pos (3 * q + 2))
      → filter c (some state) pod n ≡ ok success
      → OffZone c (c.get_pod (get_pod_name_by_ordinal parent (pos (3 * q + 0))) pod.namespace) z
        × OffZone c (c.get_pod (get_pod_name_by_ordinal parent (pos (3 * q + 1))) pod.namespace) z
  filter_second e h =
      let (zones, _, passed) = filter-filter_group c state pod n z labelled unmapped h in
      filter_group_second c pod.namespace parent z zones q (
        rw (e, get_parent_name_and_ordinal-get_pod_name_by_ordinal parent (3 * q + 2) (omega arith))
          at passed)
