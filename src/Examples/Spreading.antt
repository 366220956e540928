-- ===== src/Examples/Spreading.antt =====
-- A StatefulSet named storaged on nodes that are each a zone of their own.
use nebula_operator.Common.{ℕ, ◌-◌, ◌%◌, ◌≡◌, ◌≢◌, ◌↔◌, refl, false, some, List, [], ◌∷◌, arith}
use nebula_operator.Common.Int.{pos}
use nebula_operator.Common.Effect.{panic}
use nebula_operator.Scheduler.PodName.{
  Name, storaged, get_pod_name_by_ordinal, get_parent_name_and_ordinal, need_schedule,
}
use nebula_operator.Scheduler.PodName.RoundTrip.{
  get_parent_name_and_ordinal-get_pod_name_by_ordinal,
}
use nebula_operator.Scheduler.Cluster.{Listers, Pod, Node, found, missing, available_zones}
use nebula_operator.Scheduler.Zones.{get_topology_zones}
use nebula_operator.Scheduler.Filter.{filter}
use nebula_operator.Scheduler.Filter.Apart.{filter_first, filter_second, OffZone}
use nebula_operator.Scheduler.Filter.Range.{filter-ne-panic}
use nebula_operator.Scheduler.Filter.Panics.{PastLast, filter_panics_iff}
use nebula_operator.Scheduler.Permit.{permit, permit_group, permit_anchor, permit_sibling}
use nebula_operator.Scheduler.Spread.Placement.{placement, member}
use nebula_operator.Scheduler.Spread.Reach.{Reach, here, next, bind, bind_pod, Spread, Reach-Spread}

abbrev namespace : Name
namespace = 110 ∷ []

abbrev node_of : Name → Node
node_of y = record { node = y; zone = some y }

-- No pod is known, and the nodes are 1, 2 and 3.
abbrev cluster : Listers
cluster = record {
  get_pod = λ _ _. missing;
  get_node = λ y. found (node_of y);
  get_config_map = λ _ _. missing;
  node_infos = some (node_of (1 ∷ []) ∷ node_of (2 ∷ []) ∷ node_of (3 ∷ []) ∷ []);
}

abbrev pod_of : ℕ → Pod
pod_of i = record {
  name = get_pod_name_by_ordinal storaged (pos i);
  namespace = namespace;
  node_name = [];
  deleting = false;
  spread_constraints = 1;
}

-- The anchor is bound to the node 1, then the second pod to the node 2.
abbrev first_bound : Listers
first_bound = bind_pod cluster (pod_of 0) (1 ∷ [])

abbrev second_bound : Listers
second_bound = bind_pod first_bound (pod_of 1) (2 ∷ [])

Reach-second : Reach cluster second_bound
unfolding bind_pod permit permit_group permit_anchor permit_sibling get_pod_name_by_ordinal
    get_parent_name_and_ordinal need_schedule
Reach-second =
    next (next here (bind (pod_of 0) (1 ∷ []) (λ h. ground arith) refl refl refl refl))
      (bind (pod_of 1) (2 ∷ []) (λ h. ground arith) refl refl refl refl)

Reach-Spread_example :
    Spread second_bound
      (placement second_bound (member storaged 0 0) namespace)
      (placement second_bound (member storaged 0 1) namespace)
      (placement second_bound (member storaged 0 2) namespace)
unfolding need_schedule
Reach-Spread_example =
    Reach-Spread namespace storaged 0 (omega arith) refl refl refl refl Reach-second

get_parent_name_and_ordinal_example :
    get_parent_name_and_ordinal (get_pod_name_by_ordinal storaged (pos 17)) ≡ (storaged, pos 17)
get_parent_name_and_ordinal_example =
    get_parent_name_and_ordinal-get_pod_name_by_ordinal storaged 17 (omega arith)

abbrev zones : List Name
zones = (1 ∷ []) ∷ (2 ∷ []) ∷ (3 ∷ []) ∷ []

filter_first_example :
    OffZone first_bound
      (first_bound.get_pod (get_pod_name_by_ordinal storaged (pos 0)) namespace)
      (2 ∷ [])
    × OffZone first_bound
        (first_bound.get_pod (get_pod_name_by_ordinal storaged (pos 2)) namespace)
        (2 ∷ [])
unfolding filter get_topology_zones bind_pod get_pod_name_by_ordinal get_parent_name_and_ordinal
filter_first_example =
    filter_first first_bound [] (pod_of 1) (node_of (2 ∷ [])) (2 ∷ []) storaged 0 (omega arith) refl
      refl refl refl

filter_second_example :
    OffZone second_bound
      (second_bound.get_pod (get_pod_name_by_ordinal storaged (pos 0)) namespace)
      (3 ∷ [])
    × OffZone second_bound
        (second_bound.get_pod (get_pod_name_by_ordinal storaged (pos 1)) namespace)
        (3 ∷ [])
unfolding filter get_topology_zones bind_pod get_pod_name_by_ordinal get_parent_name_and_ordinal
filter_second_example =
    filter_second second_bound [] (pod_of 2) (node_of (3 ∷ [])) (3 ∷ []) storaged 0 (omega arith)
      refl refl refl refl

filter-ne-panic_example : filter first_bound (some []) (pod_of 1) (node_of (2 ∷ [])) ≢ panic
unfolding bind_pod get_topology_zones get_pod_name_by_ordinal get_parent_name_and_ordinal
filter-ne-panic_example =
    filter-ne-panic first_bound (some []) (pod_of 1) (node_of (2 ∷ [])) zones storaged 1 refl refl
      refl

-- A cluster with one zone.
abbrev one_zone : Listers
one_zone = record first_bound { node_infos = some (node_of (1 ∷ []) ∷ []) }

filter_panics_iff_example : (filter one_zone (some []) (pod_of 1) (node_of (1 ∷ [])) ≡ panic) ↔ (
    ¬ (1 % available_zones ≡ 0)
    × PastLast one_zone ((1 ∷ []) ∷ []) (1 % available_zones) (
        one_zone.get_pod
          (get_pod_name_by_ordinal storaged (pos (1 - 1 % available_zones)))
          (pod_of 1).namespace))
unfolding get_topology_zones get_parent_name_and_ordinal get_pod_name_by_ordinal
filter_panics_iff_example =
    filter_panics_iff one_zone [] (pod_of 1) (node_of (1 ∷ [])) ((1 ∷ []) ∷ []) storaged (1 ∷ []) 1
      refl refl refl refl
