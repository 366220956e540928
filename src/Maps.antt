-- ===== src/Maps.antt =====
-- pkg/util/maputil/map.go: maps of strings. A map is the list of its entries in the order in which
-- `range` visits them; keys and values go by numbers, the empty string by 0.
pub mod Merge
pub mod Reset
pub mod Sub
pub mod Difference
use nebula_operator.Common.{
  ℕ, ◌+◌, ◌==◌, ◌≡◌, Bool, true, false, not, ◌||◌, Option, none, some, List, [], ◌∷◌, if◌then◌else◌,
}

abbrev pub Map : Type 0
Map = List (ℕ × ℕ)

unfoldable pub get : Map → ℕ → Option ℕ
get [] k = none
get ((j, v) ∷ m) k = let rest = get m k in if j == k then some v else rest

-- The assignment `m[k] = v`.
unfoldable pub put : Map → ℕ → ℕ → Map
put [] k v = (k, v) ∷ []
put ((j, u) ∷ m) k v = let rest = put m k v in if j == k then (k, v) ∷ m else (j, u) ∷ rest

-- A map has each key once.
abbrev pub Unique : Map → Type 0
Unique [] = Unit
Unique ((k, v) ∷ m) = (get m k ≡ none) × Unique m

abbrev pub is_string_map_exist : Option ℕ → Bool
is_string_map_exist none = false
is_string_map_exist (some v) = true

abbrev pub entries_count : Map → ℕ
entries_count [] = 0
entries_count (e ∷ m) = 1 + entries_count m

-- The loop that counts the entries.
unfoldable pub total : List Map → ℕ
total [] = 0
total (m ∷ ms) = entries_count m + total ms

-- The loop over one map.
unfoldable pub merge_map : Bool → Map → Map → Map
merge_map overwrite mp [] = mp
merge_map overwrite mp ((k, v) ∷ m) =
    merge_map overwrite
      (if overwrite || not (is_string_map_exist (get mp k)) then put mp k v else mp) m

unfoldable pub merge_maps : Bool → Map → List Map → Map
merge_maps overwrite mp [] = mp
merge_maps overwrite mp (m ∷ ms) = merge_maps overwrite (merge_map overwrite mp m) ms

unfoldable pub merge_string_maps : Bool → List Map → Map
merge_string_maps overwrite ms = if total ms == 0 then [] else merge_maps overwrite [] ms

abbrev pub reset_value : Map → ℕ → Option ℕ → Map
reset_value first k none = first
reset_value first k (some v) = put first k v

-- The loop over the entries of the first map, whose values change under it.
unfoldable pub reset_entries : Map → Map → Map → Map
reset_entries first second [] = first
reset_entries first second ((k, v) ∷ m) =
    reset_entries (reset_value first k (get second k)) second m

unfoldable pub reset_map : Map → Option Map → Map
reset_map first none = first
reset_map first (some second) = reset_entries first second first

-- What `m[k]` reads; a missing key reads as the empty string.
abbrev pub value_or_empty : Option ℕ → ℕ
value_or_empty none = 0
value_or_empty (some v) = v

unfoldable pub is_sub_map : Map → Option Map → Bool
is_sub_map [] second = true
is_sub_map ((k, v) ∷ m) none = false
is_sub_map ((k, v) ∷ m) (some second) =
    let rest = is_sub_map m (some second) in
    if not (value_or_empty (get second k) == v) then false else rest

-- One entry of the first map, for the two results.
abbrev pub compare_entry : ℕ → ℕ → Option ℕ → Map × Map → Map × Map
compare_entry k v none (both, diff) = (both, put diff k v)
compare_entry k v (some u) (both, diff) =
    if not (v == u) then (put both k u, diff) else (both, diff)

unfoldable pub compare_entries : Map → Map → Map × Map → Map × Map
compare_entries [] second results = results
compare_entries ((k, v) ∷ m) second results =
    compare_entries m second (compare_entry k v (get second k) results)

unfoldable pub intersection_difference : Map → Map → Map × Map
intersection_difference first second = compare_entries first second ([], [])
