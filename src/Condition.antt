-- ===== src/Condition.antt =====
-- pkg/util/condition: the conditions that a status lists.
pub mod Status
pub mod Laws
pub mod Update
