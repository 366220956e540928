-- ===== src/Scheduler/Cluster.antt =====
-- pkg/scheduler/nodezone/node_zone.go: what the plugin reads through the listers, the statuses
-- that it answers, and the stages that only read a pod's name or the waiting pods.
use nebula_operator.Common.{
  ℕ, Bool, true, false, not, ◌&&◌, Option, some, List, [], ◌∷◌, ◌==◌, same, if◌then◌else◌,
}
use nebula_operator.Common.Int.{pos, rem, quot, ◌==ℤ◌}
use nebula_operator.Scheduler.PodName.{
  Name, need_schedule, get_config_map_name, get_parent_name_and_ordinal,
}

-- The number of zones to spread over, and the wait of the permit stage in milliseconds.
abbrev pub available_zones : ℕ
available_zones = 3

abbrev pub wait_time : ℕ
wait_time = 10000

-- The answer of a lister: `missing` is an error for which `apierrors.IsNotFound` holds.
pub data Lookup (A : Type 0) : Type 0 where
  found : A → Lookup A
  missing failed : Lookup A

pub record Pod : Type 0 where
  pub name : Name
  pub namespace : Name
  pub node_name : Name
  pub deleting : Bool
  pub spread_constraints : ℕ

-- `zone` is the label topology.kubernetes.io/zone.
pub record Node : Type 0 where
  pub node : Name
  pub zone : Option Name

pub record Listers : Type 0 where
  pub get_pod : Name → Name → Lookup Pod
  pub get_node : Name → Lookup Node
  pub get_config_map : Name → Name → Lookup (List (Name × Name))
  pub node_infos : Option (List Node)

pub data Status : Type 0 where
  success skip wait unschedulable unschedulable_and_unresolvable error : Status

abbrev pub is_empty : Name → Bool
is_empty [] = true
is_empty (c ∷ s) = false

abbrev pub is_pod_scheduled : Lookup Pod → Bool
is_pod_scheduled (found p) = not p.deleting && not (is_empty p.node_name)
is_pod_scheduled missing = false
is_pod_scheduled failed = false

-- `getErrorAsStatus`: the status of a failed lookup, and what follows one that succeeds.
abbrev pub or_status : {A B : Type 0} → Lookup A → (Status → B) → (A → B) → B
or_status (found a) bad k = k a
or_status missing bad k = bad unschedulable_and_unresolvable
or_status failed bad k = bad error

abbrev is_nil {ℓ} : {A : Type ℓ} → List A → Bool
is_nil [] = true
is_nil (x ∷ xs) = false

-- The zone mapping that the plugin keeps in the cycle's state, as `PreFilter` leaves it, and its
-- status (nil is a success).
unfoldable pub pre_filter :
    Listers → Pod → Option (List (Name × Name)) → Option (List (Name × Name)) × Status
pre_filter c pod state =
    if pod.spread_constraints == 0
    then (state, skip)
    else if not (need_schedule pod.name)
    then (state, skip)
    else if is_empty (get_config_map_name pod.name)
    then (state, unschedulable_and_unresolvable)
    else elim (c.get_config_map (get_config_map_name pod.name) pod.namespace) [
      | missing ↦ (state, unschedulable_and_unresolvable)
      | failed ↦ (state, error)
      | found m ↦ if is_nil m then (state, success) else (some m, success)
    ]

-- The members of a group share the namespace, the parent's name and the ordinal's quotient.
abbrev pub same_group : Pod → Pod → Bool
same_group w p =
    same w.namespace p.namespace
    && (same (get_parent_name_and_ordinal w.name).0 (get_parent_name_and_ordinal p.name).0
        && (quot (get_parent_name_and_ordinal p.name).1 available_zones
            ==ℤ quot (get_parent_name_and_ordinal w.name).1 available_zones))

abbrev pub reject_group : Pod → List Pod → List Pod
reject_group p [] = []
reject_group p (w ∷ ws) = if same_group w p then w ∷ reject_group p ws else reject_group p ws

-- The waiting pods that `Unreserve` rejects.
unfoldable pub unreserve : Pod → List Pod → List Pod
unreserve p waiting =
    if rem (get_parent_name_and_ordinal p.name).1 available_zones ==ℤ pos 0
    then []
    else reject_group p waiting
