-- ===== src/Vault.antt =====
-- contracts/token-vault: a vault of one default token with an owner, an operator with a withdrawal
-- cap, per-account balances of further tokens, and a migration to cold storage under a timelock.
pub mod Types
pub mod Events
pub mod Storage
pub mod Access
pub mod Withdraw
pub mod Deposit
pub mod Tokens
pub mod Owner
pub mod Migration
pub mod Calls
pub mod Ledger
