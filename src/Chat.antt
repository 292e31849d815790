-- ===== src/Chat.antt =====
-- The chat of the web client: messages, the store's merge and translations
-- (web/src/store/index.js), and the language of a text (web/src/chat/script.js).
pub mod Message
pub mod Merge
pub mod Translations
pub mod Store
pub mod Script
pub mod Sync
pub mod Online
pub mod Display
mod Examples
