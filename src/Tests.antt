-- ===== src/Tests.antt =====
-- Concrete inputs for the theorems, and runs of the definitions.
mod Acl
mod ChainPack
mod Data
mod Grants
mod Messages
mod Names
mod Paths
mod Rules
mod Serial
mod Streams
mod Subscriptions
