-- ===== src/Failover.antt =====
-- pkg/controller/component: the failover of the three components, from the offline host that the
-- meta service reports to the pod that is rebuilt.
pub mod Hosts
pub mod Manager
pub mod Detect
pub mod Storaged
pub mod Graphd
pub mod Metad
