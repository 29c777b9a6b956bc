-- ===== src/Common/Address.antt =====
-- contracts/common/src/lib.rs: the degenerate addresses.
use stream_fi_contracts.Prelude.{Bool, ◌||◌, ◌==◌}
use stream_fi_contracts.Host.{Host, Address}

unfoldable pub is_zero_address : Host → Address → Bool
is_zero_address host address = address == host.zero_account || address == host.zero_contract
