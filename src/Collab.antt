-- ===== src/Collab.antt =====
-- frontend/src/modules/collab: the presence of the users, and the connection of a shared document.
pub mod Throttle
pub mod Provider
