-- ===== src/Vault/Tokens/Renewal.antt =====
-- That the renewals reach every persistent entry.
use mathlib.Core.List.{Mem, mem-cons_self, mem-cons_of_mem}
use stream_fi_contracts.Prelude.{
  ℕ, ◌+◌, ◌<◌, ltb, ◌≡◌, refl, sym, inl, inr, true, List, [], ◌∷◌, arith, Bool-cases,
}
use stream_fi_contracts.Prelude.Int.{checked_add_u32, u32_mod}
use stream_fi_contracts.Prelude.Lists.{length}
use stream_fi_contracts.Prelude.Effect.{ok, >>=-ok}
use stream_fi_contracts.Common.Ttl.{min_ttl_ledgers, extend_ttl_ledgers}
use stream_fi_contracts.Contract.{Renewal, persistent_ttl, instance_ttl, unwrap_or}
use stream_fi_contracts.Vault.Types.{VaultKey, eqb_key, VaultEnv, kept_alive}
use stream_fi_contracts.Vault.Events
use stream_fi_contracts.Vault.Storage.{
  contains, has, bump_keys, bump_persistent, bump_tracked_keys, bump_instance, counted,
}
use stream_fi_contracts.Vault.Storage.Index.{IsIndexed, eqb_key-true}
use stream_fi_contracts.Vault.Tokens.{keep_alive}

abbrev pub renewed : VaultKey → Renewal VaultKey
renewed key = persistent_ttl key min_ttl_ledgers extend_ttl_ledgers

module _ {T : Type 0} where
  -- What the loop over some keys does.
  pub record Bumps (keys : List VaultKey) (env env' : VaultEnv T) : Type 0 where
    pub same : env' ≡ record env { renewals = env'.renewals }
    pub reached :
        (key : VaultKey)
        → contains key keys ≡ true
        → has env.store key ≡ true
        → Mem (renewed key) env'.renewals
    pub kept : (r : Renewal VaultKey) → Mem r env.renewals → Mem r env'.renewals

  bump_keys-Bumps :
      (keys : List VaultKey) (n : ℕ) (env : VaultEnv T)
      → n + length keys < u32_mod
      → (m : ℕ) × (env' : VaultEnv T) × (bump_keys keys n env ≡ ok m env') × Bumps keys env env'
  unfolding bump_keys bump_persistent counted checked_add_u32 contains length
  bump_keys-Bumps [] n env fits =
      (n, env, refl, record { same = refl; reached = λ key c h. absurd cc; kept = λ r x. x })
  bump_keys-Bumps (key ∷ keys) n env fits = elim (Bool-cases (has env.store key)) [
    | inl live ↦
        let (m, env', ran, b) =
          bump_keys-Bumps keys (n + 1) (record env { renewals = renewed key ∷ env.renewals })
            (omega arith) in
        let room : ltb (n + 1) u32_mod ≡ true = ground (arith, fits) in
        (
          m,
          env',
          rw (live, room) ran,
          record {
            same = b.same;
            reached = λ k c h. elim (Bool-cases (eqb_key k key)) [
              | inl this ↦ rw (eqb_key-true k key this) (b.kept (renewed key) mem-cons_self)
              | inr other ↦
                  let rest : contains k keys ≡ true = ground (arith, c, other) in b.reached k rest h
            ];
            kept = λ r x. b.kept r (mem-cons_of_mem (renewed key) x);
          },
        )
    | inr dead ↦
        let (m, env', ran, b) = bump_keys-Bumps keys n env (omega arith) in
        (
          m,
          env',
          rw dead ran,
          record {
            same = b.same;
            reached = λ k c h. elim (Bool-cases (eqb_key k key)) [
              | inl this ↦
                  let same = eqb_key-true k key this in
                  let live : has env.store key ≡ true = rw (sym same) h in absurd (cc (dead, live))
              | inr other ↦
                  let rest : contains k keys ≡ true = ground (arith, c, other) in b.reached k rest h
            ];
            kept = b.kept;
          },
        )
  ]

  -- Where the index of persistent keys is complete and has fewer than 2 ^ 32 keys, so that the u32
  -- counter of the renewed ones does not overflow, `keep_alive` succeeds, changes neither the storage
  -- nor the tokens, and extends the lifetime of every persistent entry of the vault and of the
  -- instance.
  pub keep_alive_renews :
      (env : VaultEnv T)
      → IsIndexed env.store
      → length (unwrap_or env.store.tracked_vault_keys []) < u32_mod
      → (env' : VaultEnv T) × (keep_alive env ≡ ok tt env')
        × (env'.store ≡ env.store)
        × (env'.tokens ≡ env.tokens)
        × Mem (instance_ttl min_ttl_ledgers extend_ttl_ledgers) env'.renewals
        × ((key : VaultKey) → has env.store key ≡ true → Mem (renewed key) env'.renewals)
  unfolding keep_alive bump_tracked_keys bump_instance Events.kept_alive
  keep_alive_renews env i fits =
      let start : VaultEnv T = record env {
        renewals = instance_ttl min_ttl_ledgers extend_ttl_ledgers ∷ env.renewals;
      } in
      let (m, mid, ran, b) =
        bump_keys-Bumps (unwrap_or env.store.tracked_vault_keys []) 0 start (omega arith) in
      (
        record mid { published = kept_alive extend_ttl_ledgers ∷ mid.published },
        >>=-ok bump_tracked_keys (λ count. Events.kept_alive extend_ttl_ledgers) start ran,
        rw b.same,
        rw b.same,
        b.kept (instance_ttl min_ttl_ledgers extend_ttl_ledgers) mem-cons_self,
        λ key h. b.reached key (i key h) h,
      )
