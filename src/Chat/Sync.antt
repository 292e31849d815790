-- ===== src/Chat/Sync.antt =====
-- The translation sync, a state machine between the store, the server's pushes and the batch API
-- (web/src/chat/translationSync.js).
pub mod State
pub mod Batch
pub mod Retry
pub mod Events
pub mod Frame
pub mod Bounds
pub mod Pacing
pub mod EventFrame
pub mod Steps
pub mod Disposal
