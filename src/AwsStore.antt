-- ===== src/AwsStore.antt =====
-- agent_resilience/aws_store.py: `AWSDurableStore`. DynamoDB and SQS are parameters: `Services` has the
-- calls that the store makes, on a state of their own.
pub mod Cloud
pub mod Checkpoints
pub mod Queue
pub mod Records
pub mod Replay
pub mod Keys
pub mod Steps
pub mod Handles
pub mod Trace
pub mod Methods
pub mod Walk
pub mod Sound
pub mod Settled
pub mod Results
pub mod Answers
pub mod Table
pub mod Lock
pub mod Verdicts
pub mod Delivery
unfoldable pub use Cloud.*
unfoldable pub use Checkpoints.*
unfoldable pub use Queue.*
unfoldable pub use Records.*
unfoldable pub use Replay.*
