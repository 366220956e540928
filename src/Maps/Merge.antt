-- ===== src/Maps/Merge.antt =====
-- pkg/util/maputil/map.go: which value a merge keeps.
use nebula_operator.Common.{
  ℕ, ◌==◌, ==_iff, ◌≡◌, refl, sym, ap, ◌∙◌, inl, inr, Bool, Bool-cases, true, false, not, Option,
  none, some, List, [], ◌∷◌, arith, All, if◌then◌else◌,
}
use nebula_operator.Maps.{
  Map, get, put, Unique, is_string_map_exist, total, merge_map, merge_maps, merge_string_maps,
}

pub get-put : (m : Map) (k v j : ℕ) → get (put m k v) j ≡ (if k == j then some v else get m j)
unfolding get put
get-put [] k v j = refl
get-put ((i, u) ∷ m) k v j = let rest = get-put m k v j in ground (arith, rest)

-- The value after a map is merged into what there is.
abbrev pub chosen : Bool → Option ℕ → Option ℕ → Option ℕ
chosen true old none = old
chosen true old (some v) = some v
chosen false none new = new
chosen false (some u) new = some u

-- What an entry adds, where the rest of its map has no other value for its key.
overwrite_entry :
    (c : Bool) (v : ℕ) (x y : Option ℕ)
    → (c ≡ true → y ≡ none)
    → chosen true (if c then some v else x) y ≡ chosen true x (if c then some v else y)
overwrite_entry true v x y n = ap (chosen true (some v)) (n refl)
overwrite_entry false v x y n = refl

keep_entry :
    (o : Option ℕ) (c : Bool) (v : ℕ) (a x y : Option ℕ)
    → (c ≡ true → x ≡ o)
    → a ≡ (if not (is_string_map_exist o) then (if c then some v else x) else x)
    → chosen false a y ≡ chosen false x (if c then some v else y)
keep_entry none true v a x y same e =
    ap (λ a. chosen false a y) e ∙ sym (ap (λ x. chosen false x (some v)) (same refl))
keep_entry (some u) true v a x y same e =
    ap (λ a. chosen false a y) (e ∙ same refl) ∙ sym (ap (λ x. chosen false x (some v)) (same refl))
keep_entry none false v a x y same e = ap (λ a. chosen false a y) e
keep_entry (some u) false v a x y same e = ap (λ a. chosen false a y) e

get-put_if :
    (b : Bool) (mp : Map) (j v k : ℕ)
    → get (if b then put mp j v else mp) k
      ≡ (if b then (if j == k then some v else get mp k) else get mp k)
get-put_if true mp j v k = get-put mp j v k
get-put_if false mp j v k = refl

pub same_key : (m : Map) (j k : ℕ) → (j == k) ≡ true → get m k ≡ get m j
same_key m j k e = sym (ap (get m) ((==_iff j k).0 e))

chosen_right : (b : Bool) (o : Option ℕ) → chosen b o none ≡ o
chosen_right true o = refl
chosen_right false none = refl
chosen_right false (some u) = refl

pub chosen_left : (b : Bool) (o : Option ℕ) → chosen b none o ≡ o
chosen_left true none = refl
chosen_left true (some u) = refl
chosen_left false o = refl

get-merge_map :
    (b : Bool) (mp m : Map) (k : ℕ)
    → Unique m
    → get (merge_map b mp m) k ≡ chosen b (get mp k) (get m k)
unfolding merge_map get
get-merge_map true mp [] k unique = refl
get-merge_map false mp [] k unique = sym (chosen_right false (get mp k))
get-merge_map true mp ((j, v) ∷ m) k unique =
    get-merge_map true (put mp j v) m k unique.1
    ∙ (ap (λ a. chosen true a (get m k)) (get-put mp j v k)
        ∙ overwrite_entry (j == k) v (get mp k) (get m k) (λ e. same_key m j k e ∙ unique.0))
get-merge_map false mp ((j, v) ∷ m) k unique =
    let b = not (is_string_map_exist (get mp j)) in
    get-merge_map false (if b then put mp j v else mp) m k unique.1
    ∙ keep_entry (get mp j) (j == k) v (get (if b then put mp j v else mp) k) (get mp k) (get m k)
        (same_key mp j k) (get-put_if b mp j v k)

chosen_assoc : (b : Bool) (x y z : Option ℕ) → chosen b (chosen b x y) z ≡ chosen b x (chosen b y z)
chosen_assoc true x none none = refl
chosen_assoc true x (some v) none = refl
chosen_assoc true x y (some w) = refl
chosen_assoc false none y z = refl
chosen_assoc false (some u) y z = refl

-- With overwrite the value of the last map that has the key, otherwise of the first.
abbrev pub kept_value : Bool → List Map → ℕ → Option ℕ
kept_value overwrite [] k = none
kept_value overwrite (m ∷ ms) k = chosen overwrite (get m k) (kept_value overwrite ms k)

get-merge_maps :
    (b : Bool) (mp : Map) (ms : List Map) (k : ℕ)
    → All Unique ms
    → get (merge_maps b mp ms) k ≡ chosen b (get mp k) (kept_value b ms k)
unfolding merge_maps
get-merge_maps b mp [] k unique = sym (chosen_right b (get mp k))
get-merge_maps b mp (m ∷ ms) k unique =
    get-merge_maps b (merge_map b mp m) ms k unique.1
    ∙ (ap (λ a. chosen b a (kept_value b ms k)) (get-merge_map b mp m k unique.0)
        ∙ chosen_assoc b (get mp k) (get m k) (kept_value b ms k))

kept_value_empty : (b : Bool) (ms : List Map) (k : ℕ) → total ms ≡ 0 → kept_value b ms k ≡ none
unfolding total get
kept_value_empty b [] k e = refl
kept_value_empty b ([] ∷ ms) k e =
    chosen_left b (kept_value b ms k) ∙ kept_value_empty b ms k (omega (arith, e))
kept_value_empty b ((x ∷ m) ∷ ms) k e = absurd (omega (arith, e))

-- Where each map has each of its keys once, the merge of maps has for a key the value of the last map
-- with the key if it overwrites, and otherwise of the first, in whatever order the entries are visited.
pub get-merge_string_maps :
    (overwrite : Bool) (ms : List Map) (k : ℕ)
    → All Unique ms
    → get (merge_string_maps overwrite ms) k ≡ kept_value overwrite ms k
unfolding merge_string_maps get
get-merge_string_maps b ms k unique = elim (Bool-cases (total ms == 0)) [
  | inl y ↦ rw y (sym (kept_value_empty b ms k ((==_iff (total ms) 0).0 y)))
  | inr n ↦ rw n (get-merge_maps b [] ms k unique ∙ chosen_left b (kept_value b ms k))
]
