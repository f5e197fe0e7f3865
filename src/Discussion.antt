-- ===== src/Discussion.antt =====
-- frontend/src/modules/discussion: the comments of a project.
pub mod Order
