-- ===== src/Scheduler/Filter/Panics.antt =====
-- pkg/scheduler/nodezone/node_zone.go: when `Filter` indexes `zones` past its end.
use nebula_operator.Common.{
  ℕ, zero, suc, ◌+◌, ◌-◌, ◌%◌, ◌==◌, ◌≤◌, ◌≡◌, ◌↔◌, refl, sym, ◌∙◌, inl, inr, true, false, none,
  some, List, [], ◌∷◌, arith, length, get_elem?, Bool-cases, Option-cases, ltb,
}
use nebula_operator.Common.Int.{pos, sub_ℕ}
use nebula_operator.Common.Effect.{Outcome, panic}
use nebula_operator.Scheduler.PodName.{Name, get_parent_name_and_ordinal, get_pod_name_by_ordinal}
use nebula_operator.Scheduler.Cluster.{
  Lookup, found, missing, failed, Pod, Node, Listers, Status, available_zones, is_pod_scheduled,
}
use nebula_operator.Scheduler.Zones.{get_topology_zones, zone_index}
use nebula_operator.Scheduler.Filter.{
  filter, filter_group, anchor_node as at_anchor, check_anchor, mapped_zone,
}
use nebula_operator.Scheduler.Filter.Range.{get_elem?-some, check_sibling-ne-panic}

get_elem?-none : {A : Type 0} (xs : List A) (i : ℕ) → length xs ≤ i → get_elem? xs i ≡ none
get_elem?-none [] i h = refl
get_elem?-none (x ∷ xs) zero h = elim h [ ]
get_elem?-none (x ∷ xs) (suc i) h = get_elem?-none xs i (omega arith)

get_elem?-past : {A : Type 0} (xs : List A) (i : ℕ) → get_elem? xs i ≡ none → length xs ≤ i
get_elem?-past xs i h = elim (Bool-cases (ltb i (length xs))) [
  | inl y ↦ absurd (let e = get_elem?-some xs i (ground arith) in ground (arith, e))
  | inr n ↦ ground arith
]

-- The anchor is placed on a node with a zone, and the index of that zone and the remainder lead past the last
-- zone.
abbrev pub PastLast : Listers → List Name → ℕ → Lookup Pod → Type 0
PastLast c zones remainder looked =
    (anchor : Pod) × (k : Node) × (a : Name) × (looked ≡ found anchor)
    × (is_pod_scheduled (found anchor) ≡ true)
    × (c.get_node anchor.node_name ≡ found k)
    × (k.zone ≡ some a)
    × (length zones ≤ (zone_index a zones + remainder) % available_zones)

module _ (c : Listers) (zones : List Name) (z : Name) (r : ℕ) (rest : Outcome Status)
    (calm : ¬ (rest ≡ panic)) where
  anchor_node-PastLast :
      (anchor : Pod) (looked : Lookup Node)
      → is_pod_scheduled (found anchor) ≡ true
      → c.get_node anchor.node_name ≡ looked
      → at_anchor zones z (pos r) looked rest ≡ panic
      → PastLast c zones r (found anchor)
  anchor_node-PastLast anchor missing s l h = absurd (ground arith)
  anchor_node-PastLast anchor failed s l h = absurd (ground arith)
  anchor_node-PastLast anchor (found k) s l h = elim (Option-cases k.zone) [
    | inl f ↦ absurd (let e = rw f at h in ground arith)
    | inr (a, f) ↦
        elim (Option-cases (get_elem? zones ((zone_index a zones + r) % available_zones))) [
          | inl g ↦ (anchor, k, a, refl, s, l, f, get_elem?-past zones _ g)
          | inr (ideal, g) ↦ absurd (calm (ground (arith, f, g, h)))
        ]
  ]

  check_anchor-PastLast :
      (looked : Lookup Pod)
      → check_anchor c zones z (pos r) looked rest ≡ panic
      → PastLast c zones r looked
  unfolding check_anchor
  check_anchor-PastLast failed h = absurd (ground arith)
  check_anchor-PastLast missing h = absurd (calm h)
  check_anchor-PastLast (found p) h = elim (Bool-cases (is_pod_scheduled (found p))) [
    | inl s ↦ anchor_node-PastLast p (c.get_node p.node_name) s refl (rw s at h)
    | inr s ↦ absurd (calm (rw s at h))
  ]

anchor_ordinal : (n : ℕ) → sub_ℕ n (n % available_zones) ≡ pos (n - n % available_zones)
anchor_ordinal n = ground arith

-- `Filter` panics on a labelled node if no zone is mapped to the pod, the pod's remainder is not 0, its
-- anchor is placed on a node with a zone, and the index of that zone and the remainder lead past
-- the last zone.
filter_panics :
    (c : Listers) (state : List (Name × Name)) (pod anchor : Pod) (node anchor_node : Node)
    (zones : List Name) (parent z a : Name) (n : ℕ)
    → node.zone ≡ some z
    → mapped_zone state pod.name ≡ []
    → get_topology_zones c.node_infos ≡ some zones
    → get_parent_name_and_ordinal pod.name ≡ (parent, pos n)
    → (n % available_zones == 0) ≡ false
    → c.get_pod (get_pod_name_by_ordinal parent (pos (n - n % available_zones))) pod.namespace
      ≡ found anchor
    → is_pod_scheduled (found anchor) ≡ true
    → c.get_node anchor.node_name ≡ found anchor_node
    → anchor_node.zone ≡ some a
    → length zones ≤ (zone_index a zones + n % available_zones) % available_zones
    → filter c (some state) pod node ≡ panic
unfolding filter filter_group check_anchor
filter_panics c state pod anchor node k zones parent z a n e f t o r p s l m h =
    rw (e, filter)
      (rw (f, t, filter)
        (rw (o, filter_group)
          (rw (r, anchor_ordinal n, p)
            (rw (s, l, m)
              (rw (
                get_elem?-none zones ((zone_index a zones + n % available_zones) % available_zones)
                  h))))))

to_group :
    (c : Listers) (state : List (Name × Name)) (pod : Pod) (node : Node) (zones : List Name)
    (parent z : Name) (n : ℕ)
    → node.zone ≡ some z
    → mapped_zone state pod.name ≡ []
    → get_topology_zones c.node_infos ≡ some zones
    → get_parent_name_and_ordinal pod.name ≡ (parent, pos n)
    → filter c (some state) pod node ≡ filter_group c pod.namespace z zones (parent, pos n)
unfolding filter
to_group c state pod node zones parent z n e f t o =
    rw (e, filter) (rw (f, t, filter) (rw (o, filter_group) refl))

-- On a labelled node, for a pod whose name carries an ordinal and to which no zone is mapped, where the zones are
-- listed, `Filter` panics exactly if the remainder of the ordinal is not 0 and the anchor is placed on a
-- node with a zone whose index and the remainder lead past the last zone.
pub filter_panics_iff :
    (c : Listers) (state : List (Name × Name)) (pod : Pod) (node : Node) (zones : List Name)
    (parent z : Name) (n : ℕ)
    → node.zone ≡ some z
    → mapped_zone state pod.name ≡ []
    → get_topology_zones c.node_infos ≡ some zones
    → get_parent_name_and_ordinal pod.name ≡ (parent, pos n)
    → (filter c (some state) pod node ≡ panic) ↔ (
        ¬ (n % available_zones ≡ 0)
        × PastLast c zones (n % available_zones) (
            c.get_pod
              (get_pod_name_by_ordinal parent (pos (n - n % available_zones)))
              pod.namespace))
unfolding filter_group
filter_panics_iff c state pod node zones parent z n e f t o = (
  λ h.
      let g = sym (to_group c state pod node zones parent z n e f t o) ∙ h in
      elim (Bool-cases (n % available_zones == 0)) [
        | inl y ↦ absurd (let k = rw y at g in ground arith)
        | inr x ↦ (
          λ k. ground (arith, x, k),
          check_anchor-PastLast c zones z (n % available_zones) _ (check_sibling-ne-panic c z _) _
              (rw (x, anchor_ordinal n) at g),
        )
      ],
  λ (k, (anchor, placed, a, p, s, l, m, past)).
      filter_panics c state pod anchor node placed zones parent z a n e f t o (ground (arith, k)) p
        s l m past,
)
