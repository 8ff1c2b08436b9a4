-- ===== src/Broker.antt =====
-- The broker (libshvbroker).
pub mod Subscription
pub mod Subscribed
pub mod Subscribing
pub mod Rejecting
pub mod Trimming
pub mod Rule
