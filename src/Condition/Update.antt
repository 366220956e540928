-- ===== src/Condition/Update.antt =====
-- pkg/util/condition/backup_condition.go and restore_condition.go: what the update of a condition
-- leaves and answers.
use nebula_operator.Common.{◌≡◌, Option, none, some}
use nebula_operator.Condition.Status.{Condition}

-- Two conditions that the status does not tell apart, but for the time of their update.
abbrev pub Agree : Option Condition → Option Condition → Type 0
Agree none none = Unit
Agree (some c) (some d) =
    (c.kind ≡ d.kind)
    × (c.status ≡ d.status)
    × (c.reason ≡ d.reason)
    × (c.message ≡ d.message)
    × (c.last_transition_time ≡ d.last_transition_time)
Agree _ _ = ⊥
