-- ===== src/Types.antt =====
-- The shared types of the frontend: frontend/src/types.
pub mod Enums
pub mod Logs
