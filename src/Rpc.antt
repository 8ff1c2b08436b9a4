-- ===== src/Rpc.antt =====
-- libshvchainpack: RPC values, their meta data, and the messages that they make up.
pub mod Value
pub mod Maps
pub mod Convert
pub mod Meta
pub mod Tags
pub mod CallerIds
pub mod Routing
pub mod Routes
pub mod Message
pub mod Response
pub mod Replies
pub mod Errors
pub mod Grants
pub mod Connection
pub mod Calls
pub mod Types
pub mod Login
