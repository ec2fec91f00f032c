-- ===== src/Lib.antt =====
-- The core of the MITIGATE AI platform: the persistent queue of missions, the worker that runs
-- them, and the contracts around their execution.
--
-- The parts and the files:
-- * MissionQueue models agent/runtime/mission_queue.py. Mission has `MissionState`, `Mission` and
--   the dictionary of missions as a list in the order of insertion; Graph has the depth-first
--   search of `_validate_no_cycles`, Validate the rest of that method; File has `to_dict`,
--   `from_dict`, `_serialize_state`, `_save` and `_load`, of files whose keys may be missing or
--   have values that the code refuses; Methods has the public methods, `enqueue_body` for `enqueue`
--   and so on, and Methods/Command has them as commands with the files that sequences of calls make
--   (`Reachable`), and Methods/Batch has `enqueue_from_planner`. The methods hold a file lock from
--   `_load` to `_save`, so each is one step from file to file, and concurrent callers are a
--   sequence of such steps.
-- * Worker models `BackgroundWorker.run` of agent/runtime/background_worker.py over that queue:
--   `recover_once`, `cycle` for one round of the loop, `transition` for what the controller's
--   status does to the queue, `save_checkpoint`. The controller, which may raise, and the
--   checkpoint store are arguments. The worker holds the lock only within each method of the queue,
--   so a round is a claim and a transition with other calls before and between them: `others` runs
--   the calls that each poll lists, of other workers, of the methods' other callers and of the
--   controller.
-- * Capabilities models agent/resilience/capability_kernel.py: the registry, the circuit breaker,
--   the gap detector and the native-first router; a provider's `execute` is an argument.
-- * Idempotency models agent/runtime/idempotent_execution_contract.py.
-- * RetryBudget models agent/resilience/retry_budget.py, RetryBudget/Projection
--   agent/resilience/retry_budget_queue_adapter.py and RetryBudget/Classification
--   agent/resilience/retry_classification.py.
-- * FlowSpec models agent/runtime/flowspec.py: `topological_steps` and the validations, and in
--   Parse `parse` and `_parse_step`. FlowSpec/Materialize models
--   agent/runtime/flowspec_materializer.py and FlowSpec/Contract
--   agent/runtime/flowspec_execution_contract.py, with the digest of the mission ids as an
--   argument.
-- * RateLimiter models agent/providers/provider_rate_limiter.py: the window of one project
--   (`check_in` for `check_request` and `register_in` for `check_and_register` between the locks),
--   Config the validations, Methods the public methods over the state files of all projects. Window
--   has the log of accepted requests that the limiter is compared with.
-- * Checkpoints models agent/runtime/checkpoint_store.py: the files as a list by directory and
--   sequence, `write` for `_atomic_write`.
-- * RetryEngine models agent/ai/retry_engine.py, with the instructions for a retry in Guidance.
-- * RepairLoop models `RepairLoop` of agent/repair/repair_loop.py; what `plan_repair` builds after
--   it has taken the next number is an argument that may raise.
-- * Prelude has the helpers that the parts share; Tests has the theorems at concrete inputs.
--
-- Bounds and fuel: Python's integers are unbounded and are ℤ or ℕ here. The search of
-- `_validate_no_cycles` runs on fuel, the number of missions, since a path of gray nodes repeats no
-- mission; without fuel it would end in `search_out_of_fuel`. The loop of `topological_steps` runs
-- on one more than the number of steps, since a step is released once; without fuel it would end in
-- `loop_out_of_fuel`. The worker's loop is given the list of its polls. The times of the rate
-- limiter are numbers of microseconds between the least and the greatest `datetime`, and arithmetic
-- that leaves them raises.
--
-- Not modelled: the lock file itself and a process that dies inside the lock; the state that a
-- queue method leaves in memory, which the next `_load` replaces; the texts of JSON documents and
-- of error messages; how `int`, `str` and `isinstance` read a JSON value of a state file, whose
-- result the document holds, a refusal included; the worker's execution reporter, lifecycle hook,
-- heartbeat and sleeping, and a change of the state file during a run by anything but the queue's
-- methods; rounding of times in the retry budget; checkpoint files that fail to be written or have
-- another shape than `save` writes; the file lock, the JSON texts and damaged files of the rate
-- limiter, and its years before 1000, whose texts `strptime` does not read; the redaction patterns
-- and the log of the retry engine; what a repair plan contains besides its number; the rest of the
-- repository, which is I/O, external services and configuration.
pub mod Prelude
pub mod MissionQueue
pub mod Worker
pub mod Capabilities
pub mod Idempotency
pub mod RetryBudget
pub mod FlowSpec
pub mod RateLimiter
pub mod Checkpoints
pub mod RetryEngine
pub mod RepairLoop
pub mod Tests
