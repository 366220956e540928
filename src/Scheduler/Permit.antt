-- ===== src/Scheduler/Permit.antt =====
-- pkg/scheduler/nodezone/node_zone.go: `Permit`, which holds a pod back until the earlier pods of
-- its group are scheduled, and refuses a node in one of their zones.
use nebula_operator.Common.{ℕ, not, Option, none, some, [], same, if◌then◌else◌}
use nebula_operator.Common.Int.{ℤ, pos, ◌-ℤ◌, rem, ◌==ℤ◌}
use nebula_operator.Scheduler.PodName.{
  Name, need_schedule, get_parent_name_and_ordinal, get_pod_name_by_ordinal,
}
use nebula_operator.Scheduler.Cluster.{
  Lookup, found, missing, failed, Pod, Node, Listers, Status, success, wait, unschedulable,
  unschedulable_and_unresolvable, error, available_zones, wait_time, is_pod_scheduled, or_status,
}

-- `labels[zone]`, which is "" where the label is missing.
abbrev pub zone_or_empty : Option Name → Name
zone_or_empty none = []
zone_or_empty (some z) = z

abbrev pub at_once : Status → Status × ℕ
at_once s = (s, 0)

unfoldable pub permit_sibling : Listers → Name → Lookup Pod → Status × ℕ
permit_sibling c assumed_zone failed = at_once error
permit_sibling c assumed_zone missing = (wait, wait_time)
permit_sibling c assumed_zone (found p) =
    if is_pod_scheduled (found p)
    then or_status (c.get_node p.node_name) at_once (λ n. elim n.zone [
      | none ↦ at_once unschedulable_and_unresolvable
      | some z ↦ if same z assumed_zone then at_once unschedulable else at_once success
    ])
    else (wait, wait_time)

unfoldable pub permit_anchor : Listers → Name → Lookup Pod → Status × ℕ → Status × ℕ
permit_anchor c node_name failed rest = at_once error
permit_anchor c node_name missing rest = (wait, wait_time)
permit_anchor c node_name (found p) rest =
    if is_pod_scheduled (found p)
    then or_status (c.get_node node_name) at_once (λ assumed.
      or_status (c.get_node p.node_name) at_once (λ n.
        if same (zone_or_empty n.zone) (zone_or_empty assumed.zone)
        then at_once unschedulable
        else rest))
    else (wait, wait_time)

abbrev pub assumed_zone_of : Lookup Node → Name
assumed_zone_of (found n) = zone_or_empty n.zone
assumed_zone_of missing = []
assumed_zone_of failed = []

unfoldable pub permit_group : Listers → Name → Name → Name × ℤ → Status × ℕ
unfolding permit_anchor permit_sibling
permit_group c ns node_name (parent, ordinal) =
    let remainder = rem ordinal available_zones in
    if remainder ==ℤ pos 0
    then at_once success
    else permit_anchor c node_name
        (c.get_pod (get_pod_name_by_ordinal parent (ordinal -ℤ remainder)) ns)
        (if remainder ==ℤ pos 2
          then permit_sibling c (assumed_zone_of (c.get_node node_name))
              (c.get_pod (get_pod_name_by_ordinal parent (ordinal -ℤ pos 1)) ns)
          else at_once success)

-- The status, and how long to wait in milliseconds.
unfoldable pub permit : Listers → Pod → Name → Status × ℕ
unfolding permit_group
permit c pod node_name =
    if not (need_schedule pod.name)
    then at_once success
    else permit_group c pod.namespace node_name (get_parent_name_and_ordinal pod.name)
