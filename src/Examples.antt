-- ===== src/Examples.antt =====
-- Concrete clusters and servers on which the theorems are run.
mod Servers
mod Spreading
mod Scaling
mod Merging
mod Updating
mod Admission
mod Conditions
mod Backups
mod Failing
