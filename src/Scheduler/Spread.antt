-- ===== src/Scheduler/Spread.antt =====
-- pkg/scheduler/nodezone/node_zone.go: what `Permit` and `Filter` achieve together with the
-- scheduler, which binds a pod only after `Permit` succeeds.
pub mod Placement
pub mod Reach
