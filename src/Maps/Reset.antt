-- ===== src/Maps/Reset.antt =====
-- pkg/util/maputil/map.go: the values after a reset.
use nebula_operator.Common.{
  ℕ, ◌==◌, ◌≡◌, refl, ap, ◌∙◌, Bool, true, false, Option, none, some, [], ◌∷◌, ==_iff,
  if◌then◌else◌,
}
use nebula_operator.Maps.{Map, get, is_string_map_exist, reset_value, reset_entries, reset_map}
use nebula_operator.Maps.Merge.{get-put, chosen}

-- A key keeps its place, and takes the value of the second map if that has one.
abbrev reset_to : Option ℕ → Option ℕ → Option ℕ
reset_to none new = none
reset_to (some old) none = some old
reset_to (some old) (some new) = some new

get-reset_value :
    (o : Option ℕ) (f : Map) (j k : ℕ)
    → get (reset_value f j o) k ≡ (if j == k then chosen true (get f k) o else get f k)
get-reset_value none f j k = same (j == k)
  where
    same : (c : Bool) → get f k ≡ (if c then get f k else get f k)
    same true = refl
    same false = refl
get-reset_value (some u) f j k = get-put f j u k

reset_twice : (x z : Option ℕ) → chosen true (chosen true x z) z ≡ chosen true x z
reset_twice x none = refl
reset_twice x (some u) = refl

-- What an entry adds to the keys that are reset.
reset_entry :
    (c : Bool) (v : ℕ) (m x z zj : Option ℕ)
    → (c ≡ true → zj ≡ z)
    → (if is_string_map_exist m
        then chosen true (if c then chosen true x zj else x) z
        else (if c then chosen true x zj else x))
      ≡ (if is_string_map_exist (if c then some v else m) then chosen true x z else x)
reset_entry true v none x z zj e = ap (chosen true x) (e refl)
reset_entry true v (some u) x z zj e =
    ap (λ y. chosen true (chosen true x y) z) (e refl) ∙ reset_twice x z
reset_entry false v m x z zj e = refl

get-reset_entries :
    (f s m : Map) (k : ℕ)
    → get (reset_entries f s m) k
      ≡ (if is_string_map_exist (get m k) then chosen true (get f k) (get s k) else get f k)
unfolding reset_entries get
get-reset_entries f s [] k = refl
get-reset_entries f s ((j, v) ∷ m) k =
    get-reset_entries (reset_value f j (get s j)) s m k
    ∙ (ap (λ a. if is_string_map_exist (get m k) then chosen true a (get s k) else a)
          (get-reset_value (get s j) f j k)
        ∙ reset_entry (j == k) v (get m k) (get f k) (get s k) (get s j)
            (λ e. ap (get s) ((==_iff j k).0 e)))

-- A reset keeps the keys of the first map, and gives those that the second map has its values.
get-reset_map :
    (first second : Map) (k : ℕ)
    → get (reset_map first (some second)) k ≡ reset_to (get first k) (get second k)
unfolding reset_map
get-reset_map first second k =
    get-reset_entries first second first k ∙ reset_to_if (get first k) (get second k)
  where
    reset_to_if :
        (x z : Option ℕ) → (if is_string_map_exist x then chosen true x z else x) ≡ reset_to x z
    reset_to_if none z = refl
    reset_to_if (some u) none = refl
    reset_to_if (some u) (some w) = refl
