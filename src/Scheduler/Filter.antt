-- ===== src/Scheduler/Filter.antt =====
-- pkg/scheduler/nodezone/node_zone.go: `Filter`, which keeps a pod off the zones of its anchor and
-- its sibling. An index of `zones` out of range is a panic.
pub mod Apart
pub mod Range
pub mod Panics
use nebula_operator.Common.{
  ℕ, suc, Bool, true, false, not, Option, none, some, List, [], ◌∷◌, same, if◌then◌else◌,
}
use nebula_operator.Common.Int.{ℤ, pos, ◌+ℤ◌, ◌-ℤ◌, rem, ◌==ℤ◌, get_at}
use nebula_operator.Common.Effect.{Outcome, ok, panic}
use nebula_operator.Scheduler.PodName.{Name, get_parent_name_and_ordinal, get_pod_name_by_ordinal}
use nebula_operator.Scheduler.Cluster.{
  Lookup, found, missing, failed, Pod, Node, Listers, Status, success,
  unschedulable_and_unresolvable, error, available_zones, is_empty, is_pod_scheduled, or_status,
}
use nebula_operator.Scheduler.Zones.{get_topology_zones, zone_index}

-- `state[name]`, which is "" for a name that is not in the map.
abbrev pub mapped_zone : List (Name × Name) → Name → Name
mapped_zone [] name = []
mapped_zone ((k, v) ∷ m) name = if same k name then v else mapped_zone m name

-- The zone of a pod that is scheduled must differ from the node's.
unfoldable pub check_sibling : Listers → Name → Lookup Pod → Outcome Status
check_sibling c node_zone failed = ok error
check_sibling c node_zone missing = ok success
check_sibling c node_zone (found p) =
    if is_pod_scheduled (found p)
    then or_status (c.get_node p.node_name) ok (λ n. elim n.zone [
      | none ↦ ok unschedulable_and_unresolvable
      | some z ↦ if same z node_zone then ok unschedulable_and_unresolvable else ok success
    ])
    else ok success

-- The same for the anchor's node, after the look at the ideal zone.
abbrev pub anchor_node : List Name → Name → ℤ → Lookup Node → Outcome Status → Outcome Status
anchor_node zones node_zone remainder looked rest = or_status looked ok (λ n. elim n.zone [
  | none ↦ ok unschedulable_and_unresolvable
  | some z ↦ elim (get_at zones (rem (pos (zone_index z zones) +ℤ remainder) available_zones)) [
    | none ↦ panic
    | some ideal ↦ if same z node_zone then ok unschedulable_and_unresolvable else rest
  ]
])

unfoldable pub check_anchor :
    Listers → List Name → Name → ℤ → Lookup Pod → Outcome Status → Outcome Status
check_anchor c zones node_zone remainder failed rest = ok error
check_anchor c zones node_zone remainder missing rest = rest
check_anchor c zones node_zone remainder (found p) rest =
    if is_pod_scheduled (found p)
    then anchor_node zones node_zone remainder (c.get_node p.node_name) rest
    else rest

abbrev pub sibling_ordinal : ℤ → ℤ → ℤ
sibling_ordinal ordinal remainder =
    if remainder ==ℤ pos 1
    then ordinal +ℤ pos 1
    else if remainder ==ℤ pos 2
    then ordinal -ℤ pos 1
    else pos 0

-- What follows the test of the zone mapping, for the pod's parent and ordinal.
unfoldable pub filter_group : Listers → Name → Name → List Name → Name × ℤ → Outcome Status
unfolding check_anchor check_sibling
filter_group c ns node_zone zones (parent, ordinal) =
    let remainder = rem ordinal available_zones in
    if remainder ==ℤ pos 0
    then ok success
    else check_anchor c zones node_zone remainder
        (c.get_pod (get_pod_name_by_ordinal parent (ordinal -ℤ remainder)) ns)
        (check_sibling c node_zone
          (c.get_pod (get_pod_name_by_ordinal parent (sibling_ordinal ordinal remainder)) ns))

-- `state` is `none` where `PreFilter` wrote no mapping, which is an error here.
unfoldable pub filter : Listers → Option (List (Name × Name)) → Pod → Node → Outcome Status
unfolding filter_group
filter c none pod n = ok error
filter c (some state) pod n = elim n.zone [
  | none ↦ ok unschedulable_and_unresolvable
  | some node_zone ↦
      let wanted = mapped_zone state pod.name in
      if not (is_empty wanted)
      then (if same wanted node_zone then ok success else ok unschedulable_and_unresolvable)
      else elim (get_topology_zones c.node_infos) [
        | none ↦ ok error
        | some zones ↦
            filter_group c pod.namespace node_zone zones (get_parent_name_and_ordinal pod.name)
      ]
]
