-- ===== src/Store.antt =====
-- agent_resilience/store.py: the tables and the methods of `SQLiteStore`, one child for each group.
pub mod Tables
pub mod Checkpoints
pub mod Events
pub mod Queue
pub mod Results
pub mod Approvals
pub mod DeadLetters
pub mod Frame
pub mod Calls
pub mod Trace
pub mod Lists
unfoldable pub use Tables.*
unfoldable pub use Checkpoints.*
unfoldable pub use Events.*
unfoldable pub use Queue.*
unfoldable pub use Results.*
unfoldable pub use Approvals.*
unfoldable pub use DeadLetters.*
