-- ===== src/Stream/Withdraw/Split.antt =====
-- How the payment of `withdraw` and `cancel` divides its amount, on a token that takes no fee.
use native.Mathlib.Nat.{div-le_of_le-mul}
use stream_fi_contracts.Prelude.{
  ℕ, ◌+◌, ◌-◌, ◌*◌, ◌/◌, ◌≤◌, ◌<◌, ◌≡◌, ◌≢◌, refl, ◌∙◌, sym, inl, inr, true, Option, none, some,
  arith, Bool-cases, ltb,
}
use stream_fi_contracts.Prelude.Int.{ℤ, pos, ltb_ℤ, checked_sub, ◌-ℤ◌, i128_half}
use stream_fi_contracts.Prelude.Effect.{ok, when, ◌>>◌, >>=-eq-ok}
use stream_fi_contracts.Host.{Host, Address, U256Laws, TokenLaws}
use stream_fi_contracts.Stream.Types.{StreamInfo, SplitConfig}
use stream_fi_contracts.Stream.Env.{Env, transfer}
use stream_fi_contracts.Stream.Math.{mul_div}
use stream_fi_contracts.Stream.Math.MulDiv.{mul_div-floor}
use stream_fi_contracts.Stream.Withdraw.{payout, pay_split}

-- The second recipient's share, rounded down.
abbrev pub share : Option SplitConfig → ℕ → ℕ
share none n = 0
share (some split) n = n * split.split_bps / 10000

-- A split as `set_split_recipient` admits it, whose payee is neither the contract nor `to`.
abbrev pub SplitApart : Option SplitConfig → (self to : Address) → Type 0
SplitApart none self to = Unit
SplitApart (some split) self to =
    (split.split_bps < 10000)
    × (split.secondary_recipient ≢ self)
    × (split.secondary_recipient ≢ to)

abbrev pub NotSecond : Option SplitConfig → Address → Type 0
NotSecond none other = Unit
NotSecond (some split) other = other ≢ split.secondary_recipient

share_le : (n bps : ℕ) → bps < 10000 → n * bps / 10000 ≤ n
share_le n bps h = div-le_of_le-mul 10000 (grind arith)

checked_sub-pos :
    (n k : ℕ) → k ≤ n → n < i128_half → checked_sub (pos n) (pos k) ≡ some (pos (n - k))
unfolding checked_sub ◌-ℤ◌
checked_sub-pos n k h b = ground arith

pub positive : (k : ℕ) → ltb_ℤ (pos 0) (pos k) ≡ ltb 0 k
unfolding ltb_ℤ
positive k = ground arith

transfer-some :
    (host : Host) (token from to : Address) (a : ℤ) (env env' : Env host.Tokens)
    → transfer host token from to a env ≡ ok tt env'
    → host.transfer token from to a env.tokens ≡ some env'.tokens
transfer-some host token from to a env env' h = ground arith

module _ (host : Host) (token : Address) (laws : TokenLaws host token) where
  open laws use {held, transfer_from, transfer_to, transfer_other}

  -- k units have gone from one holder to another.
  pub record Gives (from to : Address) (k : ℕ) (t u : host.Tokens) : Type 0 where
    pub taken : held from u + k ≡ held from t
    pub given : held to u ≡ held to t + k
    pub kept : (other : Address) → other ≢ from → other ≢ to → held other u ≡ held other t

  gives :
      (from to : Address) (k : ℕ) (t u : host.Tokens)
      → from ≢ to
      → host.transfer token from to (pos k) t ≡ some u
      → Gives from to k t u
  gives from to k t u d e = record {
    taken = transfer_from from to k t u d e;
    given = transfer_to from to k t u d e;
    kept = λ other a b. transfer_other from to other k t u a b e;
  }

  -- A payment that is left out when its amount is 0.
  pub when-transfer-Gives :
      (from to : Address) (k : ℕ) (env env' : Env host.Tokens)
      → from ≢ to
      → when (ltb_ℤ (pos 0) (pos k)) (transfer host token from to (pos k)) env ≡ ok tt env'
      → Gives from to k env.tokens env'.tokens
  when-transfer-Gives from to k env env' d h = elim (Bool-cases (ltb 0 k)) [
    | inl some_due ↦
        gives from to k env.tokens env'.tokens d
          (transfer-some host token from to (pos k) env env' (rw (positive k, some_due) at h))
    | inr nothing ↦
        let zero : k ≡ 0 = ground arith in
        let same : env' ≡ env = sym (cc (rw (positive k, nothing) at h)) in
        rw (same, zero)
          (record { taken = omega arith; given = omega arith; kept = λ other a b. refl })
  ]

  -- The second recipient, where there is one, has gained its share of n units.
  abbrev pub SecondaryGains : Option SplitConfig → ℕ → (t u : host.Tokens) → Type 0
  SecondaryGains none n t u = Unit
  SecondaryGains (some split) n t u =
      held split.secondary_recipient u ≡ held split.secondary_recipient t + share (some split) n

  -- What a payment of n units to `to` does, by the split in force.
  pub record Divides (split : Option SplitConfig) (self to : Address) (n : ℕ) (t u : host.Tokens)
      : Type 0 where
    pub paid : held self u + n ≡ held self t
    pub primary : held to u ≡ held to t + (n - share split n)
    pub secondary : SecondaryGains split n t u
    pub kept :
        (other : Address)
        → other ≢ self
        → other ≢ to
        → NotSecond split other
        → held other u ≡ held other t

  module _ (u256 : U256Laws host) where
    split_amounts :
        (split : SplitConfig) (info : StreamInfo) (to : Address) (n : ℕ)
        (env env' : Env host.Tokens)
        → n < i128_half
        → split.split_bps < 10000
        → pay_split host (some split) info to (pos n) env ≡ ok tt env'
        → let k = n * split.split_bps / 10000 in
          (when (ltb_ℤ (pos 0) (pos (n - k))) (transfer host info.token env.self to (pos (n - k)))
              >> when
                  (ltb_ℤ (pos 0) (pos k))
                  (transfer host info.token env.self split.secondary_recipient (pos k)))
            env
          ≡ ok tt env'
    split_amounts split info to n env env' b small h =
        let k = n * split.split_bps / 10000 in
        let le : k ≤ n = share_le n split.split_bps small in
        let fits : ltb k i128_half ≡ true = ground arith in
        let product : mul_div host (pos n) split.split_bps 10000 tt ≡ ok (pos k) tt =
          mul_div-floor host u256 n split.split_bps 10000 b (omega arith) (omega arith)
            (omega arith)
          ∙ rw fits in
        ground (arith, product, checked_sub-pos n k le b, h)

    pay_split-Divides :
        (o : Option SplitConfig) (info : StreamInfo) (to : Address) (n : ℕ)
        (env env' : Env host.Tokens)
        → info.token ≡ token
        → n < i128_half
        → env.self ≢ to
        → SplitApart o env.self to
        → pay_split host o info to (pos n) env ≡ ok tt env'
        → Divides o env.self to n env.tokens env'.tokens
    pay_split-Divides none info to n env env' et b d apart h =
        let e = transfer-some host info.token env.self to (pos n) env env' h in
        let g = gives env.self to n env.tokens env'.tokens d (rw et at e) in
        let all = g.given in
        record {
          paid = g.taken;
          primary = omega arith;
          secondary = tt;
          kept = λ other x y z. g.kept other x y;
        }
    pay_split-Divides (some split) info to n env env' et b d apart h =
        let k = n * split.split_bps / 10000 in
        let (u, mid, first, rest) =
          >>=-eq-ok
            (when (ltb_ℤ (pos 0) (pos (n - k)))
              (transfer host info.token env.self to (pos (n - k))))
            (λ _.
              when (ltb_ℤ (pos 0) (pos k))
                (transfer host info.token env.self split.secondary_recipient (pos k)))
            env (split_amounts split info to n env env' b apart.0 h) in
        let sec = split.secondary_recipient in
        let g = when-transfer-Gives env.self to (n - k) env mid d (rw et at first) in
        let g' =
          when-transfer-Gives env.self sec k mid env' (λ e. apart.1 (sym e)) (rw et at rest) in
        let le = share_le n split.split_bps apart.0 in
        record {
          paid = omega (arith, g.taken, g'.taken);
          primary = g'.kept to (λ e. d (sym e)) (λ e. apart.2 (sym e)) ∙ g.given;
          secondary = g'.given ∙ rw (g.kept sec apart.1 apart.2);
          kept = λ other x y z. g'.kept other x z ∙ g.kept other x y;
        }

    -- On a token that takes no fee, where the contract, the payee and the second recipient are
    -- different and the split is below the whole, a payment of n units that succeeds takes exactly
    -- n units from the contract, gives the second recipient n * bps / 10000 rounded down, where a
    -- split is set, and gives the payee all the rest: no unit is lost to rounding.
    pub payout-Divides :
        (info : StreamInfo) (to : Address) (n : ℕ) (env env' : Env host.Tokens)
        → info.token ≡ token
        → n < i128_half
        → env.self ≢ to
        → SplitApart env.store.split_config env.self to
        → payout host info to (pos n) env ≡ ok tt env'
        → Divides env.store.split_config env.self to n env.tokens env'.tokens
    unfolding payout
    payout-Divides info to n env env' et b d apart h =
        pay_split-Divides env.store.split_config info to n env env' et b d apart h
