-- ===== src/Stream/Initialize.antt =====
-- contracts/stream/src/lib.rs: `initialize`.
pub mod Fresh
use stream_fi_contracts.Prelude.{
  ℕ, suc, ◌-◌, Bool, true, false, not, ◌&&◌, ◌||◌, Option, none, some, List, [], ◌∷◌, ltb, leb,
  ◌==◌, if◌then◌else◌,
}
use stream_fi_contracts.Prelude.Int.{ℤ, pos, leb_ℤ, checked_mul}
use stream_fi_contracts.Prelude.Effect.{branch, panic_if, or_trap, ◌>>=◌, ◌>>◌}
use stream_fi_contracts.Host.{Host, Address}
use stream_fi_contracts.Common.Address.{is_zero_address}
use stream_fi_contracts.Stream.Types.{
  already_initialized, invalid_amount, invalid_recipient, invalid_time_range,
  stream_duration_too_short, description_too_long, arithmetic_overflow, backdated_stream,
  StreamInfo, StreamInfo, flag_clawback_enabled, flag_regulated_asset, set_flag,
  current_storage_version,
}
use stream_fi_contracts.Stream.Env.{
  Act, stored, store, timestamp, current_contract_address, balance,
}
use stream_fi_contracts.Stream.State.{save}
use stream_fi_contracts.Stream.Events
use stream_fi_contracts.Stream.Ttl.{bump_for_remaining}

abbrev pub min_stream_duration : ℕ
min_stream_duration = 60

abbrev pub max_stream_duration : ℕ
max_stream_duration = 3155760000

abbrev pub max_description_len : ℕ
max_description_len = 128

abbrev length : List ℕ → ℕ
length [] = 0
length (c ∷ cs) = suc (length cs)

abbrev pub is_some {ℓ} : {A : Type ℓ} → Option A → Bool
is_some none = false
is_some (some a) = true

abbrev is_too_long : Option (List ℕ) → Bool
is_too_long none = false
is_too_long (some desc) = ltb max_description_len (length desc)

-- `Some(_)` is written; `None` leaves the key as it is.
abbrev or_old {ℓ} : {A : Type ℓ} → Option A → Option A → Option A
or_old none old = old
or_old (some new) old = some new

-- The arguments of `initialize`.
pub record InitArgs : Type 0 where
  pub sender : Address
  pub recipient : Address
  pub token : Address
  pub rate_per_second : ℤ
  pub start_time : ℕ
  pub end_time : ℕ
  pub clawback_enabled : Bool
  pub force_cancel_pause_secs : ℕ
  pub is_regulated_asset : Bool
  pub description : Option (List ℕ)

unfoldable pub initial_flags : InitArgs → ℕ
initial_flags a =
    let with_clawback : ℕ = if a.clawback_enabled then set_flag 0 flag_clawback_enabled else 0 in
    if a.is_regulated_asset then set_flag with_clawback flag_regulated_asset else with_clawback

unfoldable pub initial_info : InitArgs → StreamInfo
unfolding initial_flags
initial_info a = record {
  sender = a.sender;
  recipient = a.recipient;
  token = a.token;
  rate_per_second = a.rate_per_second;
  start_time = a.start_time;
  end_time = a.end_time;
  withdrawn = pos 0;
  paused_at = 0;
  flags = initial_flags a;
  event_sequence = 0;
  cumulative_fees = pos 0;
}

module _ (host : Host) where
  -- The checks that stand before the first write, in order.
  unfoldable pub check_args : InitArgs → Act host.Tokens (Unit {0})
  unfolding is_zero_address checked_mul
  check_args a = do
    panic_if (leb_ℤ a.rate_per_second (pos 0)) invalid_amount
    panic_if (a.force_cancel_pause_secs == 0) invalid_amount
    panic_if (is_zero_address host a.recipient || a.recipient == a.sender) invalid_recipient
    panic_if (ltb 0 a.end_time && leb a.end_time a.start_time) invalid_time_range
    panic_if (ltb 0 a.end_time && ltb (a.end_time - a.start_time) min_stream_duration)
        stream_duration_too_short
    panic_if (ltb 0 a.end_time && ltb max_stream_duration (a.end_time - a.start_time))
        invalid_time_range
    panic_if (is_too_long a.description) description_too_long
    panic_if
        (ltb 0 a.end_time
          && not (is_some (checked_mul a.rate_per_second (pos (a.end_time - a.start_time)))))
        arithmetic_overflow
    now ← timestamp
    panic_if (ltb a.start_time now) backdated_stream

  unfoldable pub initial_deposit : InitArgs → Act host.Tokens ℤ
  unfolding checked_mul
  initial_deposit a =
      branch (ltb 0 a.end_time)
        (or_trap (checked_mul a.rate_per_second (pos (a.end_time - a.start_time))))
        (do self ← current_contract_address; balance host a.token self)

  -- Everything after the checks.
  unfoldable pub create : InitArgs → Act host.Tokens (Unit {0})
  unfolding initial_deposit initial_info bump_for_remaining save Events.created
  create a = do
    now ← timestamp
    bump_for_remaining (a.end_time - now)
    store (λ s. record s {
      stream_description = or_old a.description s.stream_description;
      storage_version = some current_storage_version;
      force_cancel_pause_threshold_secs = some a.force_cancel_pause_secs;
      immutable_config = some (record {
        start_time = a.start_time;
        stop_time = a.end_time;
        token = a.token;
        rate_per_second = a.rate_per_second;
        sender = a.sender;
        recipient = a.recipient;
      });
    })
    deposit ← initial_deposit a
    store (λ s. record s { cumulative_deposited = some deposit })
    save (initial_info a)
    Events.created a.sender a.recipient a.token a.rate_per_second a.start_time a.end_time
        current_storage_version

  unfoldable pub initialize : InitArgs → Act host.Tokens (Unit {0})
  unfolding check_args create
  initialize a = do
    configured ← stored (λ s. is_some s.config)
    panic_if configured already_initialized
    check_args a
    create a
