-- ===== src/Common/Pause/Expiry.antt =====
-- How long a pause of the common pause cell lasts.
use stream_fi_contracts.Prelude.{
  ℕ, ◌+◌, ◌≤◌, ◌<◌, ◌≡◌, true, false, Option, none, some, arith, ltb, min, if◌then◌else◌,
}
use stream_fi_contracts.Prelude.Int.{saturating_add_u64, u64_mod}
use stream_fi_contracts.Common.Pause.{
  PauseState, PauseCell, state, check_expiry, is_paused, set_paused_with_cooldown, written,
  default_max_pause_duration, or_default,
}

-- The record as an expired pause leaves it.
abbrev pub unpaused : PauseState → ℕ → PauseState
unpaused p now = record p {
  paused = false;
  paused_at = 0;
  max_duration = none;
  unpaused_at = some now;
}

-- A pause that `set_paused_with_cooldown` has written, with an end that is a u64 value, is in
-- force from then on for the duration asked for, cut to 14 days, and at no later time: a reading
-- within that time reports it and leaves the cell as it is, and the first reading after it reports
-- no pause and clears it.
pub set_paused_with_cooldown-lasts :
    (now later : ℕ) (cell : Option PauseCell) (max_duration cooldown : Option ℕ) (p : PauseState)
    → now + min (or_default max_duration) default_max_pause_duration < u64_mod
    → now ≤ later
    → set_paused_with_cooldown now cell true max_duration cooldown ≡ written p
    → is_paused later (some (state p)) ≡ (
        if ltb later (now + min (or_default max_duration) default_max_pause_duration)
        then (true, some (state p))
        else (false, some (state (unpaused p later))))
unfolding is_paused check_expiry set_paused_with_cooldown saturating_add_u64
set_paused_with_cooldown-lasts now later none max_duration cooldown p b a h = ground arith
set_paused_with_cooldown-lasts now later (some (PauseCell.flag f)) max_duration cooldown p b a h =
    absurd (ground arith)
set_paused_with_cooldown-lasts now later (some (state q)) max_duration cooldown p b a h =
    ground arith
