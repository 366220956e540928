-- ===== src/Scheduler/PodName.antt =====
-- pkg/scheduler/nodezone/node_zone_utils.go: the names of a StatefulSet's pods, as byte strings.
-- The expression "(.*)-([0-9]+)$" is read as it matches: the longest prefix up to the last dash,
-- where only digits follow that dash (a pod's name has no newline).
pub mod RoundTrip
use nebula_operator.Common.{
  ℕ, zero, suc, ◌+◌, ◌-◌, ◌*◌, ◌/◌, ◌%◌, Bool, true, false, ◌&&◌, ◌||◌, Option, none, some, List,
  [], ◌∷◌, ◌++◌, ltb, leb, ◌==◌, if◌then◌else◌,
}
use nebula_operator.Common.Int.{ℤ, pos, negsuc}

abbrev pub Name : Type 0
Name = List ℕ

abbrev pub is_digit : ℕ → Bool
is_digit c = leb b'0' c && leb c b'9'

abbrev pub all_digits : List ℕ → Bool
all_digits [] = true
all_digits (c ∷ s) = is_digit c && all_digits s

-- What stands before the last dash and what follows it.
unfoldable pub split_last_dash : Name → Option (Name × Name)
split_last_dash [] = none
split_last_dash (c ∷ s) = elim (split_last_dash s) [
  | some (p, d) ↦ some (c ∷ p, d)
  | none ↦ if c == b'-' then some ([], s) else none
]

-- The two groups of the match; the second is not empty.
unfoldable pub sub_matches : Name → Option (Name × Name)
unfolding split_last_dash
sub_matches name = elim (split_last_dash name) [
  | none ↦ none
  | some (p, d) ↦ elim d [
    | [] ↦ none
    | c ∷ s ↦ if all_digits (c ∷ s) then some (p, c ∷ s) else none
  ]
]

-- The number that decimal digits stand for, after `acc`.
abbrev pub decimal : ℕ → List ℕ → ℕ
decimal acc [] = acc
decimal acc (c ∷ s) = decimal (acc * 10 + (c - 48)) s

abbrev pub int32_limit : ℕ
int32_limit = 2147483648

-- `strconv.ParseInt(s, 10, 32)` on a string of digits: it fails only out of range.
abbrev pub parse_int32 : List ℕ → Option ℕ
parse_int32 s = if ltb (decimal 0 s) int32_limit then some (decimal 0 s) else none

abbrev or_minus_one : Option ℕ → ℤ
or_minus_one none = negsuc 0
or_minus_one (some n) = pos n

unfoldable pub get_parent_name_and_ordinal : Name → Name × ℤ
unfolding sub_matches
get_parent_name_and_ordinal name = elim (sub_matches name) [
  | none ↦ ([], negsuc 0)
  | some (p, d) ↦ (p, or_minus_one (parse_int32 d))
]

unfoldable pub get_parent_name : Name → Name
unfolding get_parent_name_and_ordinal
get_parent_name name = (get_parent_name_and_ordinal name).0

-- "zone", the suffix of the ConfigMap's name.
abbrev pub zone_suffix : Name
zone_suffix = b'z' ∷ b'o' ∷ b'n' ∷ b'e' ∷ []

unfoldable pub get_config_map_name : Name → Name
unfolding get_parent_name
get_config_map_name name = get_parent_name name ++ (b'-' ∷ zone_suffix)

-- The digits of `n`, in front of `acc`, on fuel above `n`.
unfoldable pub show_digits : ℕ → ℕ → List ℕ → List ℕ
show_digits zero n acc = acc
show_digits (suc f) n acc =
    let rest = show_digits f (n / 10) ((48 + n % 10) ∷ acc) in
    if ltb n 10 then (48 + n % 10) ∷ acc else rest

-- `%d`
unfoldable pub show_int : ℤ → List ℕ
unfolding show_digits
show_int (pos n) = show_digits (suc n) n []
show_int (negsuc n) = b'-' ∷ show_digits (suc (suc n)) (suc n) []

unfoldable pub get_pod_name_by_ordinal : Name → ℤ → Name
unfolding show_int
get_pod_name_by_ordinal parent ordinal = parent ++ (b'-' ∷ show_int ordinal)

abbrev pub starts_with : Name → Name → Bool
starts_with [] s = true
starts_with (c ∷ p) [] = false
starts_with (c ∷ p) (d ∷ s) = c == d && starts_with p s

-- `strings.Contains(s, p)`
abbrev pub has_part : Name → Name → Bool
has_part [] p = starts_with p []
has_part (c ∷ s) p = starts_with p (c ∷ s) || has_part s p

-- "graphd" and "storaged"
abbrev pub graphd : Name
graphd = b'g' ∷ b'r' ∷ b'a' ∷ b'p' ∷ b'h' ∷ b'd' ∷ []

abbrev pub storaged : Name
storaged = b's' ∷ b't' ∷ b'o' ∷ b'r' ∷ b'a' ∷ b'g' ∷ b'e' ∷ b'd' ∷ []

unfoldable pub need_schedule : Name → Bool
need_schedule name = has_part name graphd || has_part name storaged
