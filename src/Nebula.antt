-- ===== src/Nebula.antt =====
-- pkg/nebula: the client of the meta service, over the calls that the operator makes.
pub mod World
pub mod Meta
pub mod Jobs
pub mod Frame
pub mod Trace
