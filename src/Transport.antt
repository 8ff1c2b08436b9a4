-- ===== src/Transport.antt =====
-- libshviotqt/src/rpc: frames on sockets and on serial ports.
pub mod Crc
pub mod Frames
pub mod Serial
pub mod Escape
pub mod Delivery
pub mod Stream
pub mod StreamMeta
pub mod StreamQueue
pub mod StreamRound
pub mod StreamDelivery
pub mod StreamSession
pub mod StreamRoundTrip
pub mod ChainPackFrames
pub mod ChainPackDelivery
pub mod Messages
