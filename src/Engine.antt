-- ===== src/Engine.antt =====
-- `WorkflowEngine` of src/repo_agent/workflow.py. Its methods are actions on a `World`: the
-- checkpoint store, the runs that this worker is advancing, and the number of clock readings.
pub mod World
pub mod Records
pub mod Complete
pub mod Approval
pub mod Graph
pub mod Triple
pub mod Cursor
pub mod Committing
pub mod Saving
pub mod Checking
pub mod Completing
pub mod Deciding
pub mod Executing
pub mod Preserving
pub mod Sessions
pub mod Stopping
