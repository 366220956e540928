-- ===== src/Scheduler/Zones.antt =====
-- pkg/scheduler/nodezone/node_zone.go: `getTopologyZones`, the sorted set of at most three zones.
use nebula_operator.Common.{
  ℕ, suc, ◌≤◌, ◌≡◌, refl, Bool, true, false, ◌&&◌, ◌||◌, Option, none, some, List, [], ◌∷◌, arith,
  ltb, ◌==◌, length, same, if◌then◌else◌,
}
use nebula_operator.Scheduler.PodName.{Name}
use nebula_operator.Scheduler.Cluster.{Node, available_zones}

-- The order of Go's strings.
abbrev pub le_name : Name → Name → Bool
le_name [] t = true
le_name (c ∷ s) [] = false
le_name (c ∷ s) (d ∷ t) = ltb c d || (c == d && le_name s t)

abbrev pub has : List Name → Name → Bool
has [] z = false
has (y ∷ ys) z = same y z || has ys z

-- `sets.Set.Insert`
unfoldable pub insert_zone : Name → List Name → List Name
insert_zone z zs = if has zs z then zs else z ∷ zs

unfoldable pub place : Name → List Name → List Name
place z [] = z ∷ []
place z (y ∷ ys) = if le_name z y then z ∷ y ∷ ys else y ∷ place z ys

-- `sets.List` sorts the members.
unfoldable pub sorted : List Name → List Name
unfolding place
sorted [] = []
sorted (z ∷ zs) = place z (sorted zs)

-- The loop over the nodes: it stops at three zones and passes over nodes without the label.
unfoldable pub collect_zones : List Node → List Name → List Name
unfolding insert_zone
collect_zones [] zones = zones
collect_zones (n ∷ ns) zones =
    let rest = collect_zones ns (elim n.zone [ none ↦ zones | some z ↦ insert_zone z zones ]) in
    if length zones == available_zones then zones else rest

-- `none` is the error of the listing.
unfoldable pub get_topology_zones : Option (List Node) → Option (List Name)
unfolding collect_zones sorted
get_topology_zones none = none
get_topology_zones (some ns) = some (sorted (collect_zones ns []))

-- `zoneIndex[zone]`, which is 0 for a zone that is not in the map.
abbrev pub zone_index : Name → List Name → ℕ
zone_index z [] = 0
zone_index z (y ∷ ys) = if same y z then 0 else (if has ys z then suc (zone_index z ys) else 0)

length-place : (z : Name) (zs : List Name) → length (place z zs) ≡ suc (length zs)
unfolding place
length-place z [] = refl
length-place z (y ∷ ys) = ground (arith, length-place z ys)

length-sorted : (zs : List Name) → length (sorted zs) ≡ length zs
unfolding sorted
length-sorted [] = refl
length-sorted (z ∷ zs) = omega (arith, length-place z (sorted zs), length-sorted zs)

length-collect_zones :
    (ns : List Node) (zones : List Name)
    → length zones ≤ available_zones
    → length (collect_zones ns zones) ≤ available_zones
unfolding collect_zones
length-collect_zones [] zones h = h
length-collect_zones (n ∷ ns) zones h =
    ground
      (arith, length-collect_zones ns (elim n.zone [ none ↦ zones | some z ↦ insert_zone z zones ]))

-- At most three zones are taken into account.
length-get_topology_zones :
    (ns : List Node) (zones : List Name)
    → get_topology_zones (some ns) ≡ some zones
    → length zones ≤ available_zones
unfolding get_topology_zones
length-get_topology_zones ns zones h =
    ground (arith, length-sorted (collect_zones ns []), length-collect_zones ns [])
