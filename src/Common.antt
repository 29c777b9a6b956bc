-- ===== src/Common.antt =====
-- contracts/common/src: what the contracts share.
pub mod Address
pub mod Pause
pub mod Rbac
pub mod Ttl
