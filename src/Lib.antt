-- ===== src/Lib.antt =====
-- AgentResilience: a runtime that carries out the decisions of an incident-response agent durably,
-- one bounded action at a time. This library models the package agent_resilience/ of the repository:
-- the runtime over its SQLite store, as state passing on the store's tables, and the AWS store, as
-- state passing on the state of its services.
--
-- Parts, and how they interact:
--   * Store (agent_resilience/store.py, `SQLiteStore`): Tables has the rows and the `World`, which is
--     all tables with the clock, the calls that reached the tool backend and the questions put to the
--     engine. Checkpoints, Events, Queue, Results, Approvals, DeadLetters and Lists have the methods,
--     under their Python names. A method that opens a transaction is rolled back when it raises.
--   * Exec (agent_resilience/errors.py): calls that change a world and may raise; what was written
--     before a raise outside a transaction stays written. Exec/Keeps has the rules for what a call
--     does to the world.
--   * Models (agent_resilience/models.py): states, statuses, decisions. Policy
--     (agent_resilience/policy.py), Loop (agent_resilience/loop_detector.py) and Engine
--     (agent_resilience/decision.py, the deterministic engine and the interface of all engines).
--   * Tools (agent_resilience/tools.py): Validation has the argument models, Gateway the idempotent
--     execution, Scenario the local backend.
--   * AwsTools (agent_resilience/aws_tools.py, `AWSOperationsBackend`): the health of a service, the
--     verification of a recovery, and how failures of AWS are classified; Tools has the other tools
--     and `execute`, Evidence what was answered where a tool reports.
--   * Contracts (agent_resilience/contracts.py, `RuntimeStore`): `get_workflow` and `save_workflow` as
--     an interface. The protocol has signatures only; the laws are what the runtime and the workers
--     rely on. Contracts/Race has its clients, several workers on one store; Contracts/Sqlite and
--     Contracts/Aws fill it.
--   * AwsStore (agent_resilience/aws_store.py, `AWSDurableStore`): Cloud has the requests to
--     DynamoDB and SQS, Checkpoints, Queue, Records and Replay the methods, under their Python names.
--     Table and Delivery say what is relied on of the table and of the queues; Steps has the table as
--     a state machine, and Trace any sequence of calls, with Methods on each of them. Keys has the
--     keys' kinds, Answers the `except` clauses, Lock the checkpoints' items, Settled the items that
--     are written once.
--   * Runtime (agent_resilience/runtime.py, `WorkflowRuntime.process`): loads a checkpoint, asks the
--     engine, applies the loop detector and the policy, and executes a tool or waits for an approval.
--   * Worker (agent_resilience/worker.py, `DurableWorker.run_once`): claims a delivery, processes its
--     workflow, and acknowledges, retries or dead-letters it.
--   * Api (agent_resilience/api.py): authorisation, creation, approval, rejection, replay of dead
--     letters, and the dashboard's counts in Api/Summary.
--   * Milestone (scripts/verify_milestone4.py, `verify`): the proof on a deployment that a workflow
--     survives its worker. Site has the deployment and the checks, Stages the loops and stages; Poll
--     and Waits are about the loops, Proof is about the report.
--   * Store/Trace: the store as a list of operations that run in any order, which is how several
--     workers, their heartbeats and the API interleave; each method is one operation. Runtime/Trace,
--     Worker/Trace and Api/Trace are about the calls above as such lists, and System starts from the
--     empty tables.
--   * Tests has runs of the whole program and instances of the theorems.
--
-- Conventions. Numbers are natural numbers; times and durations are microseconds. A Python list is a
-- list, a dict an association list, a table the list of its rows in the order of their ids. An
-- `UPDATE` maps over the rows that its `WHERE` selects, and its rowcount counts them before. Where the
-- code of `process` names a workflow by its argument, the model takes the `task_id` of the state that
-- is stored under it.
--
-- Parameters: the digests of JSON text (`Digests`: hashlib and json), the tool backend
-- (`ToolBackend`), which may answer anything at each call, and the engine (`DecisionEngine`), which may
-- decide anything at each question, and boto3's clients (`Clients`). No law of them is assumed. The
-- services of the AWS store (`Services`) have named laws: `IsTable` for conditional writes and
-- consistent reads of DynamoDB, `IsQueue` for the messages of SQS, and `IsQueueApart`, that the two are
-- apart. Any request may fail, after it took effect or before. The deployment of Milestone may answer
-- anything; only its clock has a law, `IsClock`.
--
-- Bounds: every definition is structural recursion. The detector's loop runs over a counter that is
-- the quotient which bounds the Python `range`, and the decimal digits of a number have its successor
-- as fuel, which is more than they need. The waiting loops of Milestone take a number of looks as
-- fuel, and end like a timeout without it; Milestone/Poll says how many are enough.
--
-- Durations are exact: a delay below a minute is a float that timedelta rounds to the same microsecond.
-- Where a power is too large for a float the model raises as the code does, from 1025 attempts on.
--
-- Not modelled: the building of boto3's clients, the OpenAI engine, which only calls the Agents SDK, the
-- metrics, which nothing reads, HTTP routing and the event stream, the worker's asyncio loop, and the
-- evaluation, demo and deployment code around the package but for the recovery proof. A crash of a
-- worker between two operations is a trace of Store/Trace that stops there; the Python exception it
-- would be is not modelled. Error texts of pydantic and sqlite3 are not modelled. In the AWS store a
-- state's JSON text is the state, and a payload, which is always empty, is left out.
pub mod Prelude
pub mod Exec
pub mod Models
pub mod Store
pub mod Loop
pub mod Policy
pub mod Tools
pub mod Engine
pub mod AwsTools
pub mod Contracts
pub mod AwsStore
pub mod Runtime
pub mod Worker
pub mod Api
pub mod System
pub mod Milestone
pub mod Tests
