-- ===== src/Stream.antt =====
-- contracts/stream/src: `DripStream`, one contract for each payment stream.
pub mod Types
pub mod Env
pub mod State
pub mod Events
pub mod Math
pub mod Ttl
pub mod Access
pub mod Withdraw
pub mod Initialize
pub mod Cancel
pub mod Pausing
pub mod Rate
pub mod Funding
pub mod Roles
pub mod Keeper
pub mod Views
pub mod Calls
