-- ===== src/ChainPack.antt =====
-- The ChainPack encoding of numbers, libshvchainpack/c/cchainpack.c.
pub mod Bits
pub mod Uint
pub mod UintRoundTrip
pub mod Partial
pub mod Int
pub mod IntRoundTrip
pub mod Pack
pub mod DateTime
pub mod DateTimeRoundTrip
pub mod Unpack
pub mod Reader
pub mod Writer
pub mod Scalars
pub mod Writable
pub mod Loops
pub mod MapLoops
pub mod MetaLoops
pub mod Containers
pub mod RoundTrip
pub mod Progress
pub mod Termination
pub mod Prefix
pub mod ReadPrefix
pub mod Truncated
