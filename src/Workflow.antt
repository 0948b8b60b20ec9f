-- ===== src/Workflow.antt =====
-- server/processes/models/workflow*.py: workflows, their executions and the engine that runs them.
pub mod Types
pub mod Transition
pub mod Completion
pub mod Store
pub mod Action
pub mod Rows
pub mod Saving
pub mod Engine
pub mod Lifecycle
pub mod Clone
pub mod Timing
pub mod Keeping
pub mod Latest
pub mod Invalidate
pub mod Containment
