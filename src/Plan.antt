-- ===== src/Plan.antt =====
-- planning/update_plan.py: the roadmap, the progress recorded against it, and the commands.
pub mod Issue
pub mod Pattern
pub mod Documents
pub mod Cycle
pub mod Validate
pub mod Progress
pub mod State
pub mod Git
pub mod Files
pub mod Record
pub mod Evidence
pub mod Command
pub mod Outcome
pub mod Locks
pub mod Contents
pub mod Query
mod Tests
