-- ===== src/Events.antt =====
-- The event API: the numbers and names of its protocol (shared/src/event_api/types.rs), and its
-- subscriptions (apps/event-api/src/subscription).
pub mod Codes
pub mod EventTypes
pub mod Subscriptions
