-- ===== src/Lib.antt =====
-- Verification of the Conduit streaming-payment contracts (contracts/, Rust for Soroban).
--
-- The program is a set of smart contracts. A factory deploys one stream contract for each payment
-- stream; the stream holds tokens of one token contract, releases them to its recipient at a rate
-- per second, and lets the sender or an operator pause, resume, reprice, extend or cancel it. A
-- governor, an oracle, a token vault and a batch processor stand around them, and
-- contracts/common has what they share.
--
-- Modelled here: contracts/stream, contracts/token-vault and contracts/governor, and of
-- contracts/common the parts that they call.
--   Prelude      names passed on, signed integers with the i128 and u64 operations, bits, and
--                contract code as state passing with errors and traps
--   Host         soroban_sdk and the token contracts, as parameters with their documented laws
--   Common       contracts/common/src: is_zero_address, pause.rs, rbac.rs, the constants of ttl.rs
--   Stream/Types        contracts/stream/src/errors.rs and storage.rs
--   Stream/Env          the call's context, the instance storage key by key, the events' values
--   Stream/State        contracts/stream/src/state.rs
--   Stream/Events       contracts/stream/src/events.rs
--   Stream/Math         contracts/stream/src/math.rs
--   Stream/Ttl          contracts/stream/src/ttl.rs
--   Stream/Access, Withdraw, Initialize, Cancel, Pausing, Rate, Funding, Roles, Keeper, Views
--                       the entry points of contracts/stream/src/lib.rs, in groups
--   Stream/Calls        those entry points that ask for a live stream, as one type
--   Contract            a call's context and requests, for a contract with its own storage and events
--   Vault/Types, Storage, Events
--                       contracts/token-vault/src/errors.rs, storage.rs, ttl.rs and events.rs
--   Vault/Access, Withdraw, Deposit, Tokens, Owner, Migration
--                       the helpers and entry points of contracts/token-vault/src/lib.rs, in groups
--   Vault/Calls         deposit, deposit_with_fee, batch_deposit, withdraw, withdraw_batch and
--                       set_limit, as one type
--   Vault/Ledger        what the vault promises: a ledger of a balance and a limit
--   Governor/Types, Storage, Events
--                       contracts/governor/src/errors.rs, storage.rs, ttl.rs and events.rs
--   Governor/Roles      contracts/governor/src/role.rs, and the entry points of
--                       contracts/governor/src/lib.rs on roles, authority, the pause and new code
--   Governor/Params     contracts/governor/src/config.rs, and the entry points that set parameters
--   Governor/Proposals  the entry points on proposals
--   Tests               a host with a plain token, sample streams, a vault and a governor, runs and
--                       instances
-- The modules below a module of this list hold its proofs and are named for what they prove.
--
-- A call is a function of the state Env to an outcome: a value with the new state, an error with the
-- state reached, or a trap. The host rolls back a call that fails (commit of Prelude/Effect).
-- A function of the source has the definition of the same name; where its body is long it is
-- `..._body` and cut into steps that run in the source's order. A function that state::with_guard
-- wraps is with_guard of its body; in the vault, non_reentrant! is non_reentrant of the body. Each
-- operation on an i128, a u64 or a u32 writes out its range check, its saturation, or its trap. A
-- loop over a list is structural recursion on it. There is no fuel: every function is total.
--
-- Theorems on amounts ask for a sound record (IsSound of Stream/Math/Accrual): a positive rate, an
-- end after the start, times that are u64 values, a pause within the stream. Theorems on balances
-- ask for a token that takes no fee, and for a payee that is not the contract.
--
-- Not modelled: the four invoice and milestone URI functions, whose storage keys are not declared;
-- getters that return one field; the vault's vault_batch_withdraw; the governor's calls of the factory
-- (pause_factory, unpause_factory), its page of role members, and voting, whose function cast_ballot is
-- called but not defined; role entries in the older form of a bare boolean; the other contracts; the
-- off-chain services.
pub mod Prelude
pub mod Host
pub mod Common
pub mod Contract
pub mod Stream
pub mod Vault
pub mod Governor
pub mod Tests
