-- ===== src/Controller.antt =====
-- pkg/controller/nebulacluster: the reconciliation of a NebulaCluster, and its condition Ready.
pub mod Ready
pub mod Reconcile
