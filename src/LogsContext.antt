-- ===== src/LogsContext.antt =====
-- frontend/src/context/logsContext.tsx: parseLog, and the state and operations of LogsProvider.
pub mod Parse
pub mod Page
pub mod Delivery
pub mod Live
pub mod Follows
pub mod SameSockets
pub mod Sockets
pub mod Replaced
pub mod Timer
