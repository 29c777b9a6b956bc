-- ===== src/Common/Ttl.antt =====
-- contracts/common/src/ttl.rs: the mainnet renewal schedule, in ledgers.
use stream_fi_contracts.Prelude.{ℕ}

abbrev pub min_ttl_ledgers : ℕ
min_ttl_ledgers = 100000

abbrev pub extend_ttl_ledgers : ℕ
extend_ttl_ledgers = 200000
