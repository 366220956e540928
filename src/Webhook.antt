-- ===== src/Webhook.antt =====
-- pkg/webhook: the admission of a NebulaCluster.
pub mod Cluster
pub mod Validate
pub mod Handle
