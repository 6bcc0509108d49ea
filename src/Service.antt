-- ===== src/Service.antt =====
-- RunService in src/repo_agent/service.py, by its parts.
pub mod Queue
pub mod State
pub mod Publishing
pub mod Commands
pub mod Worker
pub mod Failing
pub mod Keeping
pub mod Scheduling
pub mod Stored
pub mod System
