-- ===== src/Agent.antt =====
-- frontend/src/modules/agent: the transcript of a run of the agent, and dictation.
pub mod Types
pub mod Handlers
pub mod Reducer
pub mod Actions
pub mod History
pub mod Voice
