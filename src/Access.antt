-- ===== src/Access.antt =====
-- Access levels and access grants of libshvchainpack.
pub mod Level
pub mod Grant
pub mod Tokens
pub mod RoundTrip
