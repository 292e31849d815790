-- ===== src/Audio.antt =====
-- The voices of a battle (web/src/components/Battle).
pub mod Player
pub mod Plans
mod Examples
