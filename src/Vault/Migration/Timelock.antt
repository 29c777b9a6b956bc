-- ===== src/Vault/Migration/Timelock.antt =====
-- The delay of an emergency migration, and what its execution moves.
use stream_fi_contracts.Prelude.{
  ◌≡◌, ◌≢◌, ◌+◌, ◌<◌, ◌≤◌, none, some, true, arith, ltb, sym, inl, inr, Bool-cases, Option-cases,
}
use stream_fi_contracts.Prelude.Int.{ℤ, pos, ltb_ℤ, checked_add_u64}
use stream_fi_contracts.Prelude.Effect.{ok, err}
use stream_fi_contracts.Host.{Host, Address, TokenLaws}
use stream_fi_contracts.Vault.Types.{
  VaultEnv, EmergencyMigration, timelock_not_expired, emergency_migration_timelock_seconds,
}
use stream_fi_contracts.Vault.Events
use stream_fi_contracts.Vault.Storage.{bump_instance}
use stream_fi_contracts.Vault.Access.{non_reentrant}
use stream_fi_contracts.Vault.Access.Guard.{entered, non_reentrant-ok}
use stream_fi_contracts.Vault.Migration.{
  initiate_emergency_migration, execute_emergency_migration, execute_emergency_migration_body,
}

module _ (host : Host) where
  -- After a successful `initiate_emergency_migration`, an `execute_emergency_migration` that the owner
  -- signs on that storage less than 48 hours later fails with TimelockNotExpired, if it is not a
  -- nested call.
  pub initiate_emergency_migration_waits :
      (caller destination : Address) (env env' later : VaultEnv host.Tokens)
      → initiate_emergency_migration host caller destination env ≡ ok tt env'
      → later.store ≡ env'.store
      → later.store.reentrancy_lock ≡ none
      → later.auth caller ≡ true
      → later.now < env.now + emergency_migration_timelock_seconds
      → execute_emergency_migration host caller later ≡ err timelock_not_expired later
  unfolding initiate_emergency_migration execute_emergency_migration
      execute_emergency_migration_body non_reentrant checked_add_u64 bump_instance
      Events.emergency_migration_initiated
  initiate_emergency_migration_waits caller destination env env' later h s f a w = ground arith

  -- What an execution has moved.
  pub record Migrates (caller token : Address) (m : EmergencyMigration) (amount : ℤ)
      (laws : TokenLaws host token) (env env' : VaultEnv host.Tokens) : Type 0 where
    pub by_owner : env.store.owner ≡ some caller
    pub signed : env.auth caller ≡ true
    pub due : m.executable_at ≤ env.now
    pub all : amount ≡ pos (laws.held env.self env.tokens)
    pub emptied : laws.held env.self env'.tokens ≡ 0
    pub arrived :
        laws.held m.destination env'.tokens
        ≡ laws.held m.destination env.tokens + laws.held env.self env.tokens
    pub done : env'.store.emergency_migration ≡ none

  execute_emergency_migration_body-Migrates :
      (caller token : Address) (m : EmergencyMigration) (amount : ℤ) (laws : TokenLaws host token)
      (env env' : VaultEnv host.Tokens)
      → env.store.emergency_migration ≡ some m
      → env.store.token ≡ some token
      → m.destination ≢ env.self
      → execute_emergency_migration_body host caller env ≡ ok amount env'
      → Migrates caller token m amount laws env env'
  unfolding execute_emergency_migration_body ltb_ℤ bump_instance Events.emergency_migration_executed
  execute_emergency_migration_body-Migrates caller token m amount laws env env' p t d h =
      let balance = laws.balance_held env.self env.tokens in
      elim (Bool-cases (ltb 0 (laws.held env.self env.tokens))) [
        | inl some_held ↦
            elim (Option-cases (
              host.transfer token env.self m.destination (pos (laws.held env.self env.tokens))
                env.tokens)) [
                  | inl failed ↦ absurd (ground (arith, balance, some_held, failed))
                  | inr (u, moved) ↦
                      let tokens : env'.tokens ≡ u = ground (arith, balance, some_held, moved) in
                      let less =
                        laws.transfer_from env.self m.destination (laws.held env.self env.tokens)
                          env.tokens u (λ e. d (sym e)) moved in
                      let more =
                        laws.transfer_to env.self m.destination (laws.held env.self env.tokens)
                          env.tokens u (λ e. d (sym e)) moved in
                      record {
                        by_owner = ground (arith, balance, some_held, moved);
                        signed = ground (arith, balance, some_held, moved);
                        due = ground (arith, balance, some_held, moved);
                        all = ground (arith, balance, some_held, moved);
                        emptied = rw tokens (omega arith);
                        arrived = rw tokens more;
                        done = ground (arith, balance, some_held, moved);
                      }
                ]
        | inr nothing ↦
            let none_held : laws.held env.self env.tokens ≡ 0 = ground (arith, nothing) in
            let tokens : env'.tokens ≡ env.tokens = ground (arith, balance, nothing) in
            record {
              by_owner = ground (arith, balance, nothing);
              signed = ground (arith, balance, nothing);
              due = ground (arith, balance, nothing);
              all = ground (arith, balance, nothing);
              emptied = rw tokens none_held;
              arrived = rw (tokens, none_held) (omega arith);
              done = ground (arith, balance, nothing);
            }
      ]

  -- Where the vault's token takes no fee and the destination is not the vault: a successful
  -- `execute_emergency_migration` was signed by the owner when the migration was due. It returns the
  -- vault's whole balance, which has gone to the destination, and the migration is no longer pending.
  pub execute_emergency_migration-Migrates :
      (caller token : Address) (m : EmergencyMigration) (amount : ℤ) (laws : TokenLaws host token)
      (env env' : VaultEnv host.Tokens)
      → env.store.emergency_migration ≡ some m
      → env.store.token ≡ some token
      → m.destination ≢ env.self
      → execute_emergency_migration host caller env ≡ ok amount env'
      → Migrates caller token m amount laws env env'
  unfolding execute_emergency_migration
  execute_emergency_migration-Migrates caller token m amount laws env env' p t d h =
      let (mid, free, ran, left) =
        non_reentrant-ok (execute_emergency_migration_body host caller) amount env env' h in
      let r =
        execute_emergency_migration_body-Migrates caller token m amount laws (entered env) mid p t d
          ran in
      record {
        by_owner = r.by_owner;
        signed = r.signed;
        due = r.due;
        all = r.all;
        emptied = rw left r.emptied;
        arrived = rw left r.arrived;
        done = rw left r.done;
      }
