-- ===== src/Board.antt =====
-- The operation board (web/src/components/OperationBoard).
pub mod Path
pub mod Socket
mod Examples
