-- ===== src/Scheduler/Filter/Range.antt =====
-- pkg/scheduler/nodezone/node_zone.go: the index of `zones` in `Filter`.
use nebula_operator.Common.{
  ℕ, zero, suc, ◌+◌, ◌%◌, ◌==◌, ◌<◌, ◌≡◌, ◌≢◌, refl, inl, inr, Option, none, some, List, [], ◌∷◌,
  arith, length, get_elem?, Bool-cases, Option-cases,
}
use nebula_operator.Common.Int.{pos}
use nebula_operator.Common.Effect.{Outcome, panic}
use nebula_operator.Scheduler.PodName.{Name, get_parent_name_and_ordinal}
use nebula_operator.Scheduler.Cluster.{
  Lookup, found, missing, failed, Pod, Node, Listers, Status, available_zones, is_pod_scheduled,
}
use nebula_operator.Scheduler.Zones.{get_topology_zones, zone_index}
use nebula_operator.Scheduler.Filter.{
  filter, filter_group, anchor_node as at_anchor, check_anchor, check_sibling,
}

pub get_elem?-some :
    {A : Type 0} (xs : List A) (i : ℕ) → i < length xs → (a : A) × (get_elem? xs i ≡ some a)
get_elem?-some [] i h = elim h [ ]
get_elem?-some (x ∷ xs) zero h = (x, refl)
get_elem?-some (x ∷ xs) (suc i) h = get_elem?-some xs i (omega arith)

pub check_sibling-ne-panic : (c : Listers) (z : Name) (a : Lookup Pod) → check_sibling c z a ≢ panic
unfolding check_sibling
check_sibling-ne-panic c z failed h = ground arith
check_sibling-ne-panic c z missing h = ground arith
check_sibling-ne-panic c z (found p) h = ground arith

anchor_node-ne-panic :
    (zones : List Name) (z : Name) (r : ℕ) (looked : Lookup Node) (rest : Outcome Status)
    → length zones ≡ available_zones
    → rest ≢ panic
    → at_anchor zones z (pos r) looked rest ≢ panic
anchor_node-ne-panic zones z r missing rest h k e = ground arith
anchor_node-ne-panic zones z r failed rest h k e = ground arith
anchor_node-ne-panic zones z r (found n) rest h k e = elim (Option-cases n.zone) [
  | inl f ↦ ground arith
  | inr (a, f) ↦
      ground
        (arith, get_elem?-some zones ((zone_index a zones + r) % available_zones) (omega arith))
]

check_anchor-ne-panic :
    (c : Listers) (zones : List Name) (z : Name) (r : ℕ) (a : Lookup Pod) (rest : Outcome Status)
    → length zones ≡ available_zones
    → rest ≢ panic
    → check_anchor c zones z (pos r) a rest ≢ panic
unfolding check_anchor
check_anchor-ne-panic c zones z r failed rest h k e = ground arith
check_anchor-ne-panic c zones z r missing rest h k e = k e
check_anchor-ne-panic c zones z r (found p) rest h k e =
    elim (Bool-cases (is_pod_scheduled (found p))) [
      | inl s ↦ anchor_node-ne-panic zones z r (c.get_node p.node_name) rest h k (rw s at e)
      | inr s ↦ k (rw s at e)
    ]

filter_group-ne-panic :
    (c : Listers) (ns z parent : Name) (zones : List Name) (n : ℕ)
    → length zones ≡ available_zones
    → filter_group c ns z zones (parent, pos n) ≢ panic
unfolding filter_group
filter_group-ne-panic c ns z parent zones n h e = elim (Bool-cases (n % available_zones == 0)) [
  | inl f ↦ ground arith
  | inr f ↦
      check_anchor-ne-panic c zones z (n % available_zones) _ _ h (check_sibling-ne-panic c z _)
        (rw f at e)
]

-- `Filter` does not panic on a pod whose name carries an ordinal, if the nodes carry three zones.
pub filter-ne-panic :
    (c : Listers) (state : Option (List (Name × Name))) (pod : Pod) (node : Node)
    (zones : List Name) (parent : Name) (n : ℕ)
    → get_topology_zones c.node_infos ≡ some zones
    → length zones ≡ available_zones
    → get_parent_name_and_ordinal pod.name ≡ (parent, pos n)
    → filter c state pod node ≢ panic
unfolding filter
filter-ne-panic c none pod node zones parent n t h o e = ground arith
filter-ne-panic c (some state) pod node zones parent n t h o e = elim (Option-cases node.zone) [
  | inl f ↦ ground arith
  | inr (z, f) ↦ ground (arith, filter_group-ne-panic c pod.namespace z parent zones n h)
]
