-- ===== src/Condition/Status.antt =====
-- pkg/util/condition/cluster_condition.go, backup_condition.go, restore_condition.go and
-- node_condition.go. The types, reasons and messages of conditions go by numbers, the times are
-- seconds; the conditions of a cluster, a backup and a restore have the same fields.
use nebula_operator.Common.{
  ℕ, Bool, true, false, not, ◌&&◌, ◌||◌, Option, none, some, List, [], ◌∷◌, ◌++◌, ◌==◌,
  if◌then◌else◌,
}

pub data ConditionStatus : Type 0 where
  condition_true condition_false condition_unknown : ConditionStatus

abbrev pub is_status : ConditionStatus → ConditionStatus → Bool
is_status condition_true condition_true = true
is_status condition_false condition_false = true
is_status condition_unknown condition_unknown = true
is_status _ _ = false

pub record Condition : Type 0 where
  pub kind : ℕ
  pub status : ConditionStatus
  pub reason : ℕ
  pub message : ℕ
  pub last_update_time : ℕ
  pub last_transition_time : ℕ

-- `GetNebulaClusterCondition`
unfoldable pub get_condition : List Condition → ℕ → Option Condition
get_condition [] cond_type = none
get_condition (c ∷ conditions) cond_type =
    if c.kind == cond_type then some c else get_condition conditions cond_type

unfoldable pub filter_out_condition : List Condition → ℕ → List Condition
filter_out_condition [] cond_type = []
filter_out_condition (c ∷ conditions) cond_type =
    let rest = filter_out_condition conditions cond_type in
    if c.kind == cond_type then rest else c ∷ rest

abbrev pub with_transition : Condition → ℕ → Condition
with_transition c t = record c { last_transition_time = t }

-- `SetNebulaClusterCondition` once the current condition of the type is known.
unfoldable pub replace_condition : List Condition → Condition → Option Condition → List Condition
unfolding filter_out_condition
replace_condition conditions condition none =
    filter_out_condition conditions condition.kind ++ condition ∷ []
replace_condition conditions condition (some current) =
    if is_status current.status condition.status && current.reason == condition.reason
    then conditions
    else filter_out_condition conditions condition.kind
      ++ (if is_status current.status condition.status
          then with_transition condition current.last_transition_time
          else condition)
        ∷ []

unfoldable pub set_condition : List Condition → Condition → List Condition
unfolding get_condition replace_condition
set_condition conditions condition =
    replace_condition conditions condition (get_condition conditions condition.kind)

-- The condition that `UpdateNebulaBackupCondition` stores over an old one at the time `now`.
abbrev pub stored : Condition → Condition → ℕ → Condition
stored condition old now =
    with_transition condition
      (if is_status condition.status old.status then old.last_transition_time else now)

-- The code's `isUpdate`: nothing that is compared differs.
abbrev pub is_same : Condition → Condition → Bool
is_same c old =
    is_status c.status old.status
    && (c.reason == old.reason
        && (c.message == old.message && c.last_transition_time == old.last_transition_time))

-- `UpdateNebulaBackupCondition` and `UpdateNebulaRestoreCondition`: the conditions after the call, and
-- whether they changed. The first condition of the type is replaced where it stands.
unfoldable pub update_condition_at : List Condition → Condition → ℕ → Bool × List Condition
update_condition_at [] condition now = (true, with_transition condition now ∷ [])
update_condition_at (old ∷ conditions) condition now =
    let rest = update_condition_at conditions condition now in
    if old.kind == condition.kind
    then (not (is_same (stored condition old now) old), stored condition old now ∷ conditions)
    else (rest.0, old ∷ rest.1)

unfoldable pub update_backup_condition :
    List Condition → Option Condition → ℕ → Bool × List Condition
unfolding update_condition_at
update_backup_condition conditions none now = (false, conditions)
update_backup_condition conditions (some condition) now =
    update_condition_at conditions condition now

unfoldable pub update_restore_condition :
    List Condition → Option Condition → ℕ → Bool × List Condition
unfolding update_condition_at
update_restore_condition conditions none now = (false, conditions)
update_restore_condition conditions (some condition) now =
    update_condition_at conditions condition now

abbrev pub holds : Option Condition → Bool
holds none = false
holds (some c) = is_status c.status condition_true

-- `IsBackupComplete` and its kin, by the type that they look for.
unfoldable pub is_condition_true : List Condition → ℕ → Bool
unfolding get_condition
is_condition_true conditions condition_type = holds (get_condition conditions condition_type)

-- `IsNodeReadyFalseOrUnknown`, where `none` is a status that is nil.
unfoldable pub is_node_ready_false_or_unknown : Option (List Condition) → ℕ → Bool
unfolding get_condition
is_node_ready_false_or_unknown none node_ready = false
is_node_ready_false_or_unknown (some conditions) node_ready =
    elim (get_condition conditions node_ready) [
      | none ↦ false
      | some c ↦ is_status c.status condition_false || is_status c.status condition_unknown
    ]

-- `GetNodeTrueConditions`
unfoldable pub get_node_true_conditions : List Condition → List Condition
get_node_true_conditions [] = []
get_node_true_conditions (c ∷ conditions) =
    let rest = get_node_true_conditions conditions in
    if is_status c.status condition_true then c ∷ rest else rest
