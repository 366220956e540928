-- ===== src/Storaged.antt =====
-- pkg/controller/component: the controllers of the storage component.
pub mod Api
pub mod Visit
pub mod Balancer
pub mod Scaler
pub mod Leader
pub mod Updater
