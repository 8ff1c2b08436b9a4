-- ===== src/Path.antt =====
-- SHV paths (libshvcore/src/utils/shvpath.cpp).
pub mod Prefix
pub mod Split
pub mod Dirs
pub mod Wild
pub mod WildMatch
