-- ===== src/Governor.antt =====
-- contracts/governor: the protocol's parameters, the roles that may set them, and the proposals.
pub mod Types
pub mod Events
pub mod Storage
pub mod Roles
pub mod Params
pub mod Proposals
