-- ===== src/Acl.antt =====
-- Access control: the definitions of libshviotqt/src/acl and the manager of
-- libshvbroker/src/aclmanager.cpp.
pub mod Password
pub mod User
pub mod Flatten
pub mod Queue
pub mod Closure
pub mod Lookup
pub mod Manager
pub mod Coherence
pub mod Getters
pub mod Resolve
pub mod Granted
pub mod CheckPassword
