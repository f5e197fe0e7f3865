-- ===== src/Editor.antt =====
-- frontend/src/modules/editor: the saves of a document.
pub mod Autosave
