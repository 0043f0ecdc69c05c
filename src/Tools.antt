-- ===== src/Tools.antt =====
-- agent_resilience/tools.py: the argument models, and the gateway between the runtime and the tool
-- backend.
pub mod Validation
pub mod Gateway
pub mod Scenario
pub mod Calls
pub mod Replay
unfoldable pub use Validation.*
unfoldable pub use Gateway.*
