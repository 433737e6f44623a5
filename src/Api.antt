-- ===== src/Api.antt =====
-- The API's handlers and what they stand on (apps/api/src): errors, transactions, documents,
-- emotes and the operations on emote sets.
pub mod Errors
pub mod Documents
pub mod Transactions
pub mod Sessions
pub mod Emotes
pub mod EmoteSets
