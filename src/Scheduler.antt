-- ===== src/Scheduler.antt =====
-- pkg/scheduler/nodezone: the scheduler plugin NodeZone, which spreads each three consecutive pods
-- of a StatefulSet over three zones.
pub mod PodName
pub mod Cluster
pub mod Zones
pub mod Filter
pub mod Permit
pub mod Spread
