-- ===== src/Search.antt =====
-- frontend/src/modules/project-search: matches of a pattern in a text, and what replaces them.
pub mod Find
pub mod Expand
pub mod Replace
mod Tests
