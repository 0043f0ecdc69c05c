-- ===== src/Milestone.antt =====
-- scripts/verify_milestone4.py: the proof that a deployed workflow survives the death of its worker.
-- The control plane over HTTP and ECS are parameters; the answers of the control plane are workflow
-- states and audit events. Reading the settings and writing the report to a file are left out.
pub mod Site
pub mod Stages
pub mod Poll
pub mod Waits
pub mod Proof
unfoldable pub use Site.*
unfoldable pub use Stages.*
