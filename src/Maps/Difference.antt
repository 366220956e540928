-- ===== src/Maps/Difference.antt =====
-- pkg/util/maputil/map.go: the keys in common and the missing ones.
use nebula_operator.Common.{
  ℕ, ◌==◌, ◌≡◌, refl, sym, ap, ◌∙◌, Bool, true, false, not, Option, none, some, [], ◌∷◌,
  if◌then◌else◌,
}
use nebula_operator.Maps.{
  Map, get, put, Unique, compare_entry, compare_entries, intersection_difference,
}
use nebula_operator.Maps.Merge.{get-put, chosen, chosen_left, same_key}

-- The value of the second map for a key that both have with different values.
abbrev pub changed : Option ℕ → Option ℕ → Option ℕ
changed none new = none
changed (some old) none = none
changed (some old) (some new) = if not (old == new) then some new else none

-- The value of the first map for a key that only it has.
abbrev pub missing : Option ℕ → Option ℕ → Option ℕ
missing none new = none
missing (some old) none = some old
missing (some old) (some new) = none

-- What an entry adds to a result that is `f` of the two values.
module _ (f : Option ℕ → Option ℕ → Option ℕ) (f_none : (z : Option ℕ) → f none z ≡ none) where
  entry_result :
      (c : Bool) (v : ℕ) (x y o z : Option ℕ)
      → (c ≡ true → y ≡ none)
      → (c ≡ true → o ≡ z)
      → chosen true (chosen true x (if c then f (some v) o else none)) (f y z)
        ≡ chosen true x (f (if c then some v else y) z)
  entry_result true v x y o z gone same =
      ap (λ r. chosen true (chosen true x (f (some v) o)) r)
        (ap (λ y. f y z) (gone refl) ∙ f_none z)
      ∙ ap (λ o. chosen true x (f (some v) o)) (same refl)
  entry_result false v x y o z gone same = refl

if_same : (c : Bool) (x : Option ℕ) → x ≡ chosen true x (if c then none else none)
if_same true x = refl
if_same false x = refl

put_result :
    (c t : Bool) (x : Option ℕ) (u : ℕ)
    → (if t then (if c then some u else x) else x)
      ≡ chosen true x (if c then (if t then some u else none) else none)
put_result true true x u = refl
put_result true false x u = refl
put_result false true x u = refl
put_result false false x u = refl

abbrev both_of : Map × Map → Map
both_of results = results.0

abbrev diff_of : Map × Map → Map
diff_of results = results.1

get-compare_both :
    (k v : ℕ) (o : Option ℕ) (both diff : Map) (i : ℕ)
    → get (compare_entry k v o (both, diff)).0 i
      ≡ chosen true (get both i) (if k == i then changed (some v) o else none)
get-compare_both k v none both diff i = if_same (k == i) (get both i)
get-compare_both k v (some u) both diff i =
    go (not (v == u)) ∙ put_result (k == i) (not (v == u)) (get both i) u
  where
    go :
        (t : Bool)
        → get (both_of (if t then (put both k u, diff) else (both, diff))) i
          ≡ (if t then (if k == i then some u else get both i) else get both i)
    go true = get-put both k u i
    go false = refl

get-compare_diff :
    (k v : ℕ) (o : Option ℕ) (both diff : Map) (i : ℕ)
    → get (compare_entry k v o (both, diff)).1 i
      ≡ chosen true (get diff i) (if k == i then missing (some v) o else none)
get-compare_diff k v none both diff i = get-put diff k v i ∙ put_result (k == i) true (get diff i) v
get-compare_diff k v (some u) both diff i = go (not (v == u)) ∙ if_same (k == i) (get diff i)
  where
    go :
        (t : Bool) → get (diff_of (if t then (put both k u, diff) else (both, diff))) i ≡ get diff i
    go true = refl
    go false = refl

get-compare_entries :
    (m second both diff : Map) (i : ℕ)
    → Unique m
    → (get (compare_entries m second (both, diff)).0 i
        ≡ chosen true (get both i) (changed (get m i) (get second i)))
      × (get (compare_entries m second (both, diff)).1 i
          ≡ chosen true (get diff i) (missing (get m i) (get second i)))
unfolding compare_entries get
get-compare_entries [] second both diff i unique = (refl, refl)
get-compare_entries ((k, v) ∷ m) second both diff i unique =
    let next : Map × Map = compare_entry k v (get second k) (both, diff) in
    let rest = get-compare_entries m second (next.0) (next.1) i unique.1 in
    let gone : (k == i) ≡ true → get m i ≡ none = λ e. same_key m k i e ∙ unique.0 in
    let same : (k == i) ≡ true → get second k ≡ get second i = λ e. sym (same_key second k i e) in
    (
      rest.0
          ∙ (ap (λ x. chosen true x (changed (get m i) (get second i)))
                (get-compare_both k v (get second k) both diff i)
              ∙ entry_result changed (λ z. refl) (k == i) v (get both i) (get m i) (get second k)
                  (get second i) gone same),
      rest.1
          ∙ (ap (λ x. chosen true x (missing (get m i) (get second i)))
                (get-compare_diff k v (get second k) both diff i)
              ∙ entry_result missing (λ z. refl) (k == i) v (get diff i) (get m i) (get second k)
                  (get second i) gone same),
    )

-- Where the first map has each of its keys once, the first result of IntersectionDifference has the
-- values of the second map for the keys that both have with different values, and the second result the
-- values of the first map for the keys that only it has.
pub get-intersection_difference :
    (first second : Map) (k : ℕ)
    → Unique first
    → (get (intersection_difference first second).0 k ≡ changed (get first k) (get second k))
      × (get (intersection_difference first second).1 k ≡ missing (get first k) (get second k))
unfolding intersection_difference get
get-intersection_difference first second k unique =
    let r = get-compare_entries first second [] [] k unique in
    (
      r.0 ∙ chosen_left true (changed (get first k) (get second k)),
      r.1 ∙ chosen_left true (missing (get first k) (get second k)),
    )
