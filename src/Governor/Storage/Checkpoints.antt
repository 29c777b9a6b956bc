-- ===== src/Governor/Storage/Checkpoints.antt =====
-- Checkpoints of voting weight, recorded and looked up.
use stream_fi_contracts.Prelude.{
  ℕ, ◌≡◌, ◌<◌, ◌≤◌, ap, ◌∙◌, inl, inr, true, some, List, [], ◌∷◌, arith, leb, Bool-cases,
  if◌then◌else◌,
}
use stream_fi_contracts.Prelude.Effect.{ok}
use stream_fi_contracts.Host.{Address}
use stream_fi_contracts.Contract.{insert, unwrap_or}
use stream_fi_contracts.Vault.Storage.Entries.{insert-same}
use stream_fi_contracts.Governor.Types.{BalanceCheckpoint, Store, GovernorEnv}
use stream_fi_contracts.Governor.Storage.{
  recorded, matched_weight, get_checkpoint_weight, record_checkpoint, record_checkpoint_at,
  bump_persistent,
}

-- No checkpoint is later than a ledger.
abbrev pub AllUpTo : ℕ → List BalanceCheckpoint → Type 0
AllUpTo ledger [] = Unit
AllUpTo ledger (c ∷ cps) = (c.ledger ≤ ledger) × AllUpTo ledger cps

recorded_earlier :
    (new : BalanceCheckpoint) (snapshot matched : ℕ) (cps : List BalanceCheckpoint)
    → snapshot < new.ledger
    → matched_weight snapshot matched (recorded new cps) ≡ matched_weight snapshot matched cps
unfolding recorded matched_weight
recorded_earlier new snapshot matched [] h = ground arith
recorded_earlier new snapshot matched (last ∷ []) h = ground arith
recorded_earlier new snapshot matched (c ∷ d ∷ rest) h =
    let later = recorded_earlier new snapshot c.weight (d ∷ rest) h in rw later

recorded_later :
    (new : BalanceCheckpoint) (snapshot matched : ℕ) (cps : List BalanceCheckpoint)
    → AllUpTo new.ledger cps
    → new.ledger ≤ snapshot
    → matched_weight snapshot matched (recorded new cps) ≡ new.weight
unfolding recorded matched_weight
recorded_later new snapshot matched [] a h = ground arith
recorded_later new snapshot matched (last ∷ []) (up, tt) h = ground arith
recorded_later new snapshot matched (c ∷ d ∷ rest) (up, all) h =
    let later = recorded_later new snapshot c.weight (d ∷ rest) all h in
    let within : leb c.ledger snapshot ≡ true = ground arith in rw within later

get_checkpoint_weight-found :
    (s : Store) (account : Address) (snapshot : ℕ) (cps : List BalanceCheckpoint)
    → s.vote_checkpoints account ≡ some cps
    → get_checkpoint_weight s account snapshot ≡ some (matched_weight snapshot 0 cps)
unfolding get_checkpoint_weight
get_checkpoint_weight-found s account snapshot cps h = ground arith

module _ {T : Type 0} where
  -- A weight that `record_checkpoint` records for an account none of whose checkpoints is later than
  -- this ledger: it is the account's weight at every snapshot of this ledger or a later one, and the
  -- account's weight at an earlier snapshot is what it was (0 for an account without checkpoints).
  pub record_checkpoint-get_checkpoint_weight :
      (account : Address) (weight snapshot : ℕ) (cps : List BalanceCheckpoint)
      (env env' : GovernorEnv T)
      → unwrap_or (env.store.vote_checkpoints account) [] ≡ cps
      → AllUpTo env.sequence cps
      → record_checkpoint account weight env ≡ ok tt env'
      → get_checkpoint_weight env'.store account snapshot
        ≡ some (if leb env.sequence snapshot then weight else matched_weight snapshot 0 cps)
  unfolding record_checkpoint record_checkpoint_at bump_persistent
  record_checkpoint-get_checkpoint_weight account weight snapshot cps env env' e a h =
      let new : BalanceCheckpoint = record { ledger = env.sequence; weight = weight } in
      let set : env'.store.vote_checkpoints
          ≡ insert account (recorded new (unwrap_or (env.store.vote_checkpoints account) []))
              env.store.vote_checkpoints =
        ground arith in
      let here : env'.store.vote_checkpoints account ≡ some (recorded new cps) =
        ap (λ f. f account) set
        ∙ insert-same account (recorded new (unwrap_or (env.store.vote_checkpoints account) []))
            env.store.vote_checkpoints
        ∙ rw e in
      elim (Bool-cases (leb env.sequence snapshot)) [
        | inl within ↦
            let le : env.sequence ≤ snapshot = ground (arith, within) in
            rw within (
              get_checkpoint_weight-found env'.store account snapshot (recorded new cps) here
              ∙ ap some (recorded_later new snapshot 0 cps a le))
        | inr before ↦
            let lt : snapshot < env.sequence = ground (arith, before) in
            rw before (
              get_checkpoint_weight-found env'.store account snapshot (recorded new cps) here
              ∙ ap some (recorded_earlier new snapshot 0 cps lt))
      ]
