-- ===== src/Server.antt =====
-- The server (server/src): its limits, its locks and its live sessions.
pub mod Window
pub mod SocketLimit
pub mod BusyLock
pub mod Countdown
pub mod Negotiation
pub mod RallyGroups
mod Examples
mod StartExamples
mod RallyExamples
