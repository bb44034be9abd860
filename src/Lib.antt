-- ===== src/Lib.antt =====
-- AI MicroAgents (src/): a runtime that splits a goal into a plan of tasks, runs the tasks that are
-- ready in parallel on a pool of subagents, reviews what they submit, and retries or gives up.
--
-- The parts and their files:
-- - Base, Errors: numbers, lists, maps and texts as the program uses them; src/errors.rs.
-- - Planner: src/planner/plan.rs (the states of a task, tasks, plans), src/planner/dag.rs
--   (`ready_task_ids`, `reachable_dependencies`) and src/planner/decomposition.rs: the identifiers
--   of tasks (Planner/Slugs), what words suggest (Planner/Hints), the route and the model of a task
--   (Planner/Routes), the drafts of a goal (Planner/Goals, Planner/Comparison, Planner/Analysis),
--   `materialize_plan` (Planner/Materialize), and the plans of a goal and of a contract
--   (Planner/Decomposition), over petgraph's levels as a parameter.
-- - Llm: src/llm/broker.rs and src/llm/models.rs; the contract of src/llm/response_types.rs stands
--   in Planner/Decomposition.
-- - Team: src/team/config.rs (settings, their validation), src/team/resources.rs (the capacity that
--   the host's load allows), src/team/subagent.rs, and src/team/manager.rs: blueprints, the pool
--   with its calls (Team/Manager/Pool) and its reconciliation with settings (Team/Manager/Startup).
-- - Execution: src/execution/dispatcher.rs (one task: acquire, execute, review, release, with the
--   published events) and src/execution/scheduler.rs (the rounds over a plan).
-- - Policy: src/policy/permissions.rs and src/policy/budgets.rs.
-- - Memory: src/memory/brain.rs (Memory/Brain) and `save_or_merge_brain_candidate` of
--   src/storage/postgres.rs over a table that is a list of rows, newest first (Memory/Ledger), and
--   src/memory/summary.rs with its slices by bytes (Memory/Summary).
-- - Reminders: the tables and statements of src/storage/postgres.rs for jobs and reminders
--   (Reminders/Jobs), src/usecase/send_reminder.rs (Reminders/Send) and the direct loop of
--   src/scheduler/worker.rs (Reminders/Worker). A tick is a function on the tables and on the list
--   of the attempts made; `Step` lists ticks and new jobs in the order in which they happen. Each
--   statement gets an `Answer`: it may fail before or after it was carried out, and the results
--   that the code drops are dropped.
-- - Outbox: the envelopes of src/telemetry/event_bus.rs and the table `outbox_events` of
--   src/storage/postgres.rs (Outbox/Events), and the publisher of src/telemetry/redis_bus.rs
--   (Outbox/Publisher). XADD and the statement behind it may fail, and may have been carried out
--   all the same, as `Answer` says; a tick whose fetch fails changes nothing.
-- - Skills: the choice of skills in src/skills/selector.rs.
-- - Samples, Examples: data and instances of the theorems.
--
-- How they interact: `execute_plan_parallel` asks `ready_task_ids` for the tasks of a round, spawns
-- a future that calls `run_one_task` for each, and waits for all of them; `run_one_task` takes a
-- subagent from the `TeamManager` that all share and releases it. Every call of the manager holds
-- one lock for its whole length, so it is a function from state to state, and an interleaving of
-- futures is a list of calls (`Call`, `run`) or a `Schedule`, which gives each task some state of
-- the team and lists the results in the order of the launches. The scheduler is stated over `Join`,
-- the results of a round in whatever order the futures complete, and the dispatcher is shown to
-- give what its theorems ask of a `Join`. The semaphore of a round only delays its futures, so a
-- round is stated without it.
--
-- Numbers: unsigned integers are natural numbers, with `saturating_add` at its bound and the
-- counter of ephemeral subagents wrapping at 2^64. A `f64` is its bit pattern, on which nothing
-- computes; the comparisons of `f32` readings are parameters (`Floats`). Readings of the clock and
-- fresh identifiers are arguments. A `HashMap` is an association list with one entry for a key.
--
-- Fuel: `Scheduler.run` counts rounds, and `tasks * (2 * max_review_loops + 1) + 1` of them suffice
-- on distinct ids. `search_loop` counts pops of its stack: one for the task asked for and one for
-- each entry of a list of dependencies suffice. A panic, on an empty role set or list of roles or
-- on a slice inside a character, is `none`.
--
-- Not modelled: the language model, prompts, HTTP, Telegram, Postgres (but for the tables named
-- above: saving a memory, claiming jobs and creating a reminder are shown as they commit, one at a
-- time), Redis with its queues, and the dashboard, which are I/O. Parameters stand for Unicode's
-- `to_lowercase`, petgraph's levels, serde's decoding of a payload, the answers of the channel and
-- of the database, and the operations on costs and confidences. Rows of one key come in the order
-- of their ids, which the SQL leaves open.
pub mod Base
pub mod Errors
pub mod Policy
pub mod Memory
pub mod Llm
pub mod Planner
pub mod Team
pub mod Execution
pub mod Reminders
pub mod Outbox
pub mod Skills
pub mod Samples
pub mod Examples
