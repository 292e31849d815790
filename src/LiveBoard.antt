-- ===== src/LiveBoard.antt =====
-- The live operation board that the server keeps (server/src/operation-boards/).
pub mod Element
pub mod State
pub mod Members
pub mod Gateway
pub mod Room
