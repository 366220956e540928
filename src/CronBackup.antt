-- ===== src/CronBackup.antt =====
-- pkg/controller/cronbackup: backups that are started by a schedule, and their expiry.
pub mod Schedule
pub mod Expiry
pub mod Sync
pub mod Control
