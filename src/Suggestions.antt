-- ===== src/Suggestions.antt =====
-- frontend/src/modules/collab/suggestions: the suggested changes of a document.
pub mod Planner
pub mod Records
