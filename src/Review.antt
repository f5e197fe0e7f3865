-- ===== src/Review.antt =====
-- frontend/src/modules/diff-review: the hunks that the agent proposes, placed in and written into a
-- text that may have changed since.
mod Tests
pub mod MinimalEdit
pub mod Locate
pub mod Lines
pub mod Hunk
pub mod Rebase
pub mod Inline
