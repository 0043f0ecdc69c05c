-- ===== src/Tests.antt =====
-- Concrete runs of the runtime, the worker and the API, and instances of the theorems.
mod Fixture
mod Runs
mod Steps
mod Stores
mod Cloud
mod Aws
mod Rounds
mod Proof
mod Rules
