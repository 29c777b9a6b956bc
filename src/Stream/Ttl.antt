-- ===== src/Stream/Ttl.antt =====
-- contracts/stream/src/ttl.rs: how far a call extends the life of the stream's storage.
pub mod Bounds
use stream_fi_contracts.Prelude.{
  ℕ, ◌+◌, ◌-◌, ◌/◌, ◌^◌, ltb, if◌then◌else◌, min, max, some, none, Option,
}
use stream_fi_contracts.Prelude.Int.{saturating_add_u32}
use stream_fi_contracts.Prelude.Effect.{◌>>=◌, err}
use stream_fi_contracts.Common.Ttl.{min_ttl_ledgers, extend_ttl_ledgers}
use stream_fi_contracts.Stream.Types.{stream_not_found, StreamInfo}
use stream_fi_contracts.Stream.Env.{Env, Act, extend_ttl}
use stream_fi_contracts.Stream.State.{load}

abbrev pub max_pause_secs : ℕ
max_pause_secs = 2592000

abbrev pub seconds_per_ledger : ℕ
seconds_per_ledger = 5

abbrev pub max_ttl_ledgers : ℕ
max_ttl_ledgers = 6312000

-- `remaining_secs.div_ceil(5)`, cut to u32, plus the threshold, clamped.
unfoldable pub extend_to_for_remaining : ℕ → ℕ
unfolding saturating_add_u32
extend_to_for_remaining remaining_secs =
    let remaining_ledgers =
      min ((remaining_secs + seconds_per_ledger - 1) / seconds_per_ledger) (2 ^ 32 - 1) in
    min (max (saturating_add_u32 remaining_ledgers min_ttl_ledgers) extend_ttl_ledgers)
      max_ttl_ledgers

module _ {T : Type 0} where
  unfoldable pub bump_for_remaining : ℕ → Act T (Unit {0})
  bump_for_remaining remaining_secs =
      extend_ttl min_ttl_ledgers (extend_to_for_remaining remaining_secs)

  -- `drip_common::ttl::bump_instance`
  unfoldable pub bump : Act T (Unit {0})
  bump = extend_ttl min_ttl_ledgers extend_ttl_ledgers

  abbrev pub remaining_secs : StreamInfo → Env T → ℕ
  remaining_secs info env = if ltb 0 info.end_time then info.end_time - env.now else 0

  abbrev bump_loaded : Option StreamInfo → Act T (Unit {0})
  bump_loaded none env = err stream_not_found env
  bump_loaded (some stored) env =
      (do info ← load; λ e. bump_for_remaining (remaining_secs info e) e) env

  unfoldable pub bump_stream_instance : Act T (Unit {0})
  unfolding bump_for_remaining load
  bump_stream_instance env = bump_loaded env.store.config env
