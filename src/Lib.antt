-- ===== src/Lib.antt =====
-- Repo Maintainer Agent (src/repo_agent): a durable workflow that turns a bug report into a
-- reviewed and verified patch, a bounded loop between a model and tools, and a local service that
-- stores, schedules and publishes the runs.
--
-- The parts and their files:
-- - RunModels (src/repo_agent/run_models.py) and Outcomes (the types of
--   src/repo_agent/workflow.py): the records of runs, checkpoints and node outcomes;
--   RunModels/Plans has the validators of a plan.
-- - Errors: the exceptions of the package, and the methods that may raise them. A method over a
--   state S is a function S → Result A × S, so that what it wrote before it raised is kept.
-- - Checkpoints (src/repo_agent/checkpoints.py): SQLiteCheckpointStore as two lists, the rows of
--   `workflow_runs` and of `workflow_checkpoints`; save_checkpoint is the compare-and-set that
--   appends a checkpoint and advances the run's row in one transaction. Checkpoints/Laws has what
--   a save does, Checkpoints/Numbering the invariant of the tables.
-- - Engine (src/repo_agent/workflow.py): WorkflowEngine. Engine/World has its state and its
--   surroundings, Engine/Records, Complete, Approval and Graph its methods by their names.
--   Engine/Triple has their Hoare triples and Engine/Cursor an invariant of every run's cursor;
--   Engine/Committing, Saving, Checking, Completing, Deciding, Executing and Preserving show that
--   each method keeps it, and Engine/Sessions that every session of calls does. Engine/Stopping
--   has what the engine leaves alone.
-- - Loop (src/repo_agent/loop.py, models.py): AgentLoop.run over a provider and an executor that
--   share a state. Loop/Rounds, Loop/Calls and Loop/Budget have its bounds, with Loop/Orderly,
--   Loop/Logging and Loop/Ensuring for what it asks of them, the log of its calls and what its
--   checks ensure.
-- - Policy (src/repo_agent/policy.py): RepositoryPathPolicy.validate; Policy/Accepts has what an
--   accepted path is.
-- - Patches (src/repo_agent/patches.py): _locate_model_sequence and _apply_model_hunks, with their
--   results in Patches/Matching, Patches/Windows and Patches/Placing; Patches/Headers reads hunk
--   headers, and Patches/Sections has _parse_model_hunks and the counting of _parse_file_section,
--   with results in Patches/Sections/Totals and Patches/Sections/Bare. Patches/Validation is
--   validate_patch, with its promise in Patches/Validation/Limits, and Patches/Models has the
--   parsers of the formats that models write, with their promise in Patches/Models/Safe and its
--   lemmas in the Changes, Git and Bare beside it.
-- - Hoare: what an action that may raise does to what holds of its state, for the parts below.
-- - Database (src/repo_agent/persistence.py): RunDatabase as the lists of its three tables; a
--   method is one transaction. Database/Logging has the event log and its pages, Database/Effects
--   the recorded side effects, Database/Sorting, with TextOrder, the order of the listed runs, and
--   Database/Holding, Listing and Storing what the methods keep of one run's status.
-- - EventStream (src/repo_agent/api.py): the event stream of a run, `run_events` with its
--   `stream`, over the service, until it waits for new events or ends. EventStream/Pages and
--   Reading have what it reads, and Replay what it sends.
-- - PublicEvents (src/repo_agent/event_safety.py, api.py): the public form of an event,
--   `_public_event`, and of a run's state, `_event_state`; PublicEvents/Timestamps has their
--   patterns.
-- - Requests (src/repo_agent/api.py): the middlewares that check a request's token and bound its
--   body; Requests/Tokens, Receiving and Bodies have what they let through.
-- - Service (src/repo_agent/service.py): RunService. Service/Queue is its scheduler, with its
--   invariants in Sound, Popping, Cancelling and Holders, and its order in Turns; Service/State
--   has the state and the checks of arguments, Publishing how a run is traced, reported and
--   stored, Commands what clients call, and Worker what `_execute_job` and RunExecutionContext do.
--   Service/Keeping and Service/Scheduling show what these keep of the scheduler, and
--   Service/Stored, with its Commands, Worker, Beginning and Publishing, what they keep of a
--   stored status; Service/Failing is about a workflow that raises. Service/System is the service
--   at work as a step relation: commands, the worker's phases and the workflow's calls interleave.
--   Its Reachable and Final are about every state that is reached.
-- - RunList: `list_runs` of src/repo_agent/api.py, over that of the service and its scheduler's
--   snapshot; RunList/Selecting has what the response has.
-- - Examples: concrete adapters, providers and patches, and the results on runs of theirs.
--
-- How the parts interact: the engine's methods act on a World that holds the store; they read it
-- by load_run and get_checkpoint and write it by save_checkpoint alone. A node's operation is a
-- field of Operations, a function of its context and the store that returns a result and the
-- store that it leaves, since a cancellation may commit while it runs. The theorems on sessions
-- ask the operations to leave the run's own row and the invariant as they found them
-- (AreCareful).
--
-- The service acts on a Service that holds a Database, the state of the artifact store and the
-- scheduler, and the stream reads pages and records of it. A workflow reaches them by `checkpoint`
-- and `publish_event`; the side effects that it records and the artifacts that it writes are
-- left out there, since no stored status and no part of the scheduler is among them. In
-- Service/System a workflow may checkpoint any record whose status is not `queued` or
-- `interrupted`, which only the service gives, and may return or raise anything.
--
-- Parameters: the clock and the durations taken from it, the length of `json.dumps`, and
-- pydantic's `str_strip_whitespace` are the fields of Host; the provider, the executor, Python's
-- `==` and `repr` of arguments are records over any types. Python's `str.casefold` and the
-- values of Unicode's decimal digits are functions that the definitions take, as is `repr` of a
-- metadata line.
--
-- The service's own Host has the clock, the new ids, `int(_, 16)`, `str.lower`, the checks of
-- repository paths, and the artifact store, any method of which may raise. What a client sends,
-- and whether it comes in time, is the list of arrivals that Requests takes.
--
-- Fuel: run_graph counts LangGraph's supersteps down from the recursion limit that resume
-- passes, 2 * 32 + 4 = 68; a run that used them all raises GraphRecursionError, as LangGraph
-- does. The loop of AgentLoop.run is recursion on the steps that are left of max_steps. The
-- `while` of the event stream counts its rounds, of which one more than the run has events are
-- enough.
--
-- Not modelled: SQLite's locking and paging, the JSON text of the columns, the adapters behind
-- the operations (workflow_runtime.py, sandbox.py, checks.py), the HTTP provider, the interfaces
-- (the other routes of api.py, cli.py, web.py) and the benchmark harness, which are input and
-- output around these parts; the lease file of the service and its waiting with a timeout, which
-- are calls of the operating system; the rewriting of models' patches by git and difflib, and
-- paths on disk, which are parts of their own.
pub mod Prelude
pub mod Errors
pub mod Hoare
pub mod RunModels
pub mod Outcomes
pub mod Checkpoints
pub mod Database
pub mod EventStream
pub mod Service
pub mod Requests
pub mod PublicEvents
pub mod RunList
pub mod Engine
pub mod Loop
pub mod Policy
pub mod Patches
mod Examples
