-- ===== src/ProjectIndex.antt =====
-- frontend/src/modules/project-index: what a project is made of.
pub mod Includes
