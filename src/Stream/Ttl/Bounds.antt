-- ===== src/Stream/Ttl/Bounds.antt =====
-- The storage's life covers what remains of the stream.
use stream_fi_contracts.Prelude.{ℕ, ◌+◌, ◌*◌, ◌≤◌, ◌<◌, arith}
use stream_fi_contracts.Prelude.Int.{saturating_add_u32}
use stream_fi_contracts.Common.Ttl.{min_ttl_ledgers, extend_ttl_ledgers}
use stream_fi_contracts.Stream.Ttl.{extend_to_for_remaining, max_ttl_ledgers, seconds_per_ledger}

-- The target of a renewal lies between the least extension and the network's maximum.
extend_to_for_remaining-bounds :
    (remaining_secs : ℕ)
    → (extend_ttl_ledgers ≤ extend_to_for_remaining remaining_secs)
      × (extend_to_for_remaining remaining_secs ≤ max_ttl_ledgers)
unfolding extend_to_for_remaining saturating_add_u32
extend_to_for_remaining-bounds remaining_secs = (ground arith, ground arith)

-- Where the target is below the network's maximum, it covers all remaining seconds of the stream at
-- 5 seconds a ledger, with the renewal threshold to spare.
extend_to_for_remaining-covers :
    (remaining_secs : ℕ)
    → extend_to_for_remaining remaining_secs < max_ttl_ledgers
    → remaining_secs + seconds_per_ledger * min_ttl_ledgers
      ≤ seconds_per_ledger * extend_to_for_remaining remaining_secs
unfolding extend_to_for_remaining saturating_add_u32
extend_to_for_remaining-covers remaining_secs h = ground arith
