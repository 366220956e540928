-- ===== src/Maps/Sub.antt =====
-- pkg/util/maputil/map.go: what a sub map is.
use nebula_operator.Common.{
  ℕ, ◌==◌, ==_iff, ◌≡◌, refl, sym, ap, ◌∙◌, ◌↔◌, inl, inr, Bool, Bool-cases, true, false, not, none,
  some, [], ◌∷◌, arith, if◌then◌else◌,
}
use nebula_operator.Maps.Merge.{same_key}
use nebula_operator.Maps.{Map, get, Unique, value_or_empty, is_sub_map}

-- Each key of the first map reads in the second as its value.
abbrev pub ReadsAs : Map → Map → Type 0
ReadsAs first second = (k v : ℕ) → get first k ≡ some v → value_or_empty (get second k) ≡ v

both_hold : (a r : Bool) → (if not a then false else r) ≡ true → (a ≡ true) × (r ≡ true)
both_hold false r h = absurd (ground arith)
both_hold true r h = (refl, h)

is_sub_map-ReadsAs :
    (first second : Map) → is_sub_map first (some second) ≡ true → ReadsAs first second
unfolding is_sub_map get
is_sub_map-ReadsAs [] second h k v e = absurd (ground arith)
is_sub_map-ReadsAs ((j, u) ∷ m) second h k v e =
    let (a, r) = both_hold (value_or_empty (get second j) == u) (is_sub_map m (some second)) h in
    elim (Bool-cases (j == k)) [
      | inl y ↦
          let same : u ≡ v = ap value_or_empty (rw y at e) in
          ap (λ i. value_or_empty (get second i)) (sym ((==_iff j k).0 y))
          ∙ ((==_iff (value_or_empty (get second j)) u).0 a ∙ same)
      | inr n ↦ is_sub_map-ReadsAs m second r k v (rw n at e)
    ]

some-ne-none : (v : ℕ) → ¬ (some v ≡ none)
some-ne-none v e = ground arith

ReadsAs-is_sub_map :
    (first second : Map)
    → Unique first
    → ReadsAs first second
    → is_sub_map first (some second) ≡ true
unfolding is_sub_map get
ReadsAs-is_sub_map [] second unique h = refl
ReadsAs-is_sub_map ((j, u) ∷ m) second unique h =
    let here : value_or_empty (get second j) ≡ u = h j u (rw ((==_iff j j).1 refl) refl) in
    let rest : is_sub_map m (some second) ≡ true = ReadsAs-is_sub_map m second unique.1 (λ k v e.
      h k v (elim (Bool-cases (j == k)) [
        | inl y ↦ absurd (some-ne-none v (sym e ∙ (same_key m j k y ∙ unique.0)))
        | inr n ↦ rw n e
      ])) in
    rw ((==_iff (value_or_empty (get second j)) u).1 here) rest

-- Where the first map has each of its keys once and the second is not nil, IsSubMap answers true exactly
-- if each key of the first map reads in the second as its value, a missing key reading as empty.
pub is_sub_map_iff :
    (first second : Map)
    → Unique first
    → ((is_sub_map first (some second) ≡ true) ↔ ReadsAs first second)
is_sub_map_iff first second unique =
    (is_sub_map-ReadsAs first second, ReadsAs-is_sub_map first second unique)
