-- ===== src/Examples/Merging.antt =====
-- Maps of strings.
use nebula_operator.Common.{◌≡◌, refl, ◌↔◌, true, some, [], ◌∷◌}
use nebula_operator.Maps.{Map, get, is_sub_map, intersection_difference, merge_string_maps}
use nebula_operator.Maps.Merge.{kept_value, get-merge_string_maps}
use nebula_operator.Maps.Sub.{ReadsAs, is_sub_map_iff}
use nebula_operator.Maps.Difference.{changed, missing, get-intersection_difference}

abbrev labels : Map
labels = (1, 5) ∷ (2, 6) ∷ []

abbrev more_labels : Map
more_labels = (2, 7) ∷ (3, 8) ∷ []

get-merge_string_maps_example :
    get (merge_string_maps true (labels ∷ more_labels ∷ [])) 2
    ≡ kept_value true (labels ∷ more_labels ∷ []) 2
unfolding get
get-merge_string_maps_example =
    get-merge_string_maps true (labels ∷ more_labels ∷ []) 2
      ((refl, (refl, tt)), ((refl, (refl, tt)), tt))

-- The empty value of a key that the second map has not.
abbrev empty_label : Map
empty_label = (4, 0) ∷ []

is_sub_map_iff_example : (is_sub_map empty_label (some labels) ≡ true) ↔ ReadsAs empty_label labels
unfolding get
is_sub_map_iff_example = is_sub_map_iff empty_label labels (refl, tt)

get-intersection_difference_example :
    (get (intersection_difference labels more_labels).0 2
      ≡ changed (get labels 2) (get more_labels 2))
    × (get (intersection_difference labels more_labels).1 2
        ≡ missing (get labels 2) (get more_labels 2))
unfolding get
get-intersection_difference_example =
    get-intersection_difference labels more_labels 2 (refl, (refl, tt))
