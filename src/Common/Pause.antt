-- ===== src/Common/Pause.antt =====
-- contracts/common/src/pause.rs: the pause cell that a contract keeps under one of its keys, as
-- functions of the ledger time and of the cell's content.
pub mod Expiry
use stream_fi_contracts.Prelude.{
  ℕ, ◌*◌, Bool, true, false, not, ◌&&◌, Option, none, some, if◌then◌else◌, leb, min,
}
use stream_fi_contracts.Prelude.Int.{saturating_add_u64}

abbrev pub default_max_pause_duration : ℕ
default_max_pause_duration = 14 * 24 * 60 * 60

pub record PauseState : Type 0 where
  pub paused : Bool
  pub paused_at : ℕ
  pub max_duration : Option ℕ
  pub unpaused_at : Option ℕ
  pub unpause_cooldown : Option ℕ

-- The value under a pause key: the plain flag that earlier versions wrote, or the record.
pub data PauseCell : Type 0 where
  flag : Bool → PauseCell
  state : PauseState → PauseCell

-- The record's case of `is_paused`: the answer, and the record as it is left.
unfoldable pub check_expiry : ℕ → PauseState → Bool × PauseState
check_expiry now p = if not p.paused then (false, p) else elim p.max_duration [
  | none ↦ (true, p)
  | some max_dur ↦
      if leb (saturating_add_u64 p.paused_at max_dur) now
      then (
        false,
        record p { paused = false; paused_at = 0; max_duration = none; unpaused_at = some now },
      )
      else (true, p)
]

-- Reading also writes: a plain `true` becomes a record, and an expired pause is cleared.
unfoldable pub is_paused : ℕ → Option PauseCell → Bool × Option PauseCell
unfolding check_expiry saturating_add_u64
is_paused now none = (false, none)
is_paused now (some (flag false)) = (false, some (flag false))
is_paused now (some (flag true)) = (
  true,
  some (
      state (record {
        paused = true;
        paused_at = now;
        max_duration = some default_max_pause_duration;
        unpaused_at = none;
        unpause_cooldown = none;
      })),
)
is_paused now (some (state p)) = let (answer, p') = check_expiry now p in (answer, some (state p'))

-- How a write to the cell ends. A plain flag does not decode as a record, and the read traps.
pub data SetPaused : Type 0 where
  written : PauseState → SetPaused
  in_cooldown : SetPaused
  undecodable : SetPaused

unfoldable pub cooling_down : ℕ → Option PauseCell → Option ℕ → Bool
unfolding saturating_add_u64
cooling_down now (some (state current)) (some cooldown) =
    not current.paused && elim current.unpaused_at [
      | none ↦ false
      | some last_unpaused ↦ leb now (saturating_add_u64 last_unpaused cooldown)
    ]
cooling_down now cell cooldown = false

abbrev or_default : Option ℕ → ℕ
or_default none = default_max_pause_duration
or_default (some d) = d

abbrev new_state : ℕ → Bool → Bool → Option ℕ → Option ℕ → PauseState
new_state now known paused max_duration unpause_cooldown = record {
  paused = paused;
  paused_at = if paused then now else 0;
  max_duration =
      if paused then some (min (or_default max_duration) default_max_pause_duration) else none;
  unpaused_at = if not paused && known then some now else none;
  unpause_cooldown = unpause_cooldown;
}

unfoldable pub set_paused_with_cooldown :
    ℕ → Option PauseCell → Bool → Option ℕ → Option ℕ → SetPaused
unfolding cooling_down
set_paused_with_cooldown now none paused max_duration cooldown =
    written (new_state now false paused max_duration cooldown)
set_paused_with_cooldown now (some (flag b)) paused max_duration cooldown = undecodable
set_paused_with_cooldown now (some (state p)) paused max_duration cooldown =
    if paused && cooling_down now (some (state p)) cooldown
    then in_cooldown
    else written (new_state now true paused max_duration cooldown)

unfoldable pub set_paused : ℕ → Option PauseCell → Bool → SetPaused
unfolding set_paused_with_cooldown
set_paused now cell paused = set_paused_with_cooldown now cell paused none none
