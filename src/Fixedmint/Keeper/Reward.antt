-- ===== src/Fixedmint/Keeper/Reward.antt =====
-- `MintFixedBlockReward`, on every branch.
use bluechip_chain_official.Prelude.{
  ℕ, zero, suc, ◌+◌, ◌≤◌, ◌≡◌, refl, ◌∙◌, ap, arith, true, false, some, Bytes, bytes_eq,
  bytes_eq_refl, Outcome, ok, err, panic, Error, ◌⊎◌, inl, inr, if◌then◌else◌, Bool-cases, ◌<◌,
  subst, sym, bytes_eq→eq,
}
use bluechip_chain_official.MathInt.{ℤ, pos, negsuc, MathInt, MathIntLaws}
use bluechip_chain_official.Sdk.{Sdk, SdkLaws, int_limit}
use bluechip_chain_official.Fixedmint.Params.{Params}
use bluechip_chain_official.Fixedmint.Keeper.Calls.{>>=_ok, >>=_err, on_bank_lem}
use bluechip_chain_official.Fixedmint.Keeper.{
  Ctx, ◌>>=◌, on_bank, module_name, fee_collector_name, get_params, skips_mint, mint_and_send,
  mint_fixed_block_reward,
}

module _ (n : MathInt) (laws : MathIntLaws n) (sdk : Sdk n) (sdk_laws : SdkLaws n laws sdk) where
  open laws use {value, is_zero_lem}
  open sdk_laws use {
    valid_denom, new_coin_lem, new_coin_bad_denom, new_coin_negative, single, new_coins_lem,
    amount_of, amount_of-single, balance, supply, mint_balance, mint_supply, send_balance,
    send_supply, can_mint, is_module, mint_succeeds, send_succeeds, module_address_ne,
  }
  open sdk use {mint_coins, send_coins_from_module_to_module, module_address}
  open n use {Int}

  -- Minting disabled, or an amount of 0: the block ends well, and nothing has changed.
  pub reward_skipped :
      (p : Params Int) (c : Ctx n sdk)
      → get_params n sdk c ≡ ok p
      → (p.mint_enabled ≡ false) ⊎ (value p.mint_amount ≡ some (pos 0))
      → mint_fixed_block_reward n sdk c ≡ (ok tt, c)
  unfolding mint_fixed_block_reward skips_mint
  reward_skipped p c g (inl off) = rw g (rw off)
  reward_skipped p c g (inr none') = elim (Bool-cases p.mint_enabled) [
    | inl on ↦ rw g (rw on (rw (is_zero_lem p.mint_amount (pos 0) none')))
    | inr off ↦ rw g (rw off)
  ]

  -- Past the first test, where the amount is some other number.
  reward_mints :
      (p : Params Int) (z : ℤ) (c : Ctx n sdk)
      → get_params n sdk c ≡ ok p
      → p.mint_enabled ≡ true
      → value p.mint_amount ≡ some z
      → (z ≡ pos 0 → ⊥)
      → mint_fixed_block_reward n sdk c ≡ mint_and_send n sdk p c
  unfolding mint_fixed_block_reward skips_mint
  reward_mints p (pos zero) c g on v nz = absurd (nz refl)
  reward_mints p (pos (suc k)) c g on v nz =
      rw g (rw on (rw (is_zero_lem p.mint_amount (pos (suc k)) v)))
  reward_mints p (negsuc k) c g on v nz = rw g (rw on (rw (is_zero_lem p.mint_amount (negsuc k) v)))

  pub reward_panics :
      (p : Params Int) (z : ℤ) (c : Ctx n sdk)
      → get_params n sdk c ≡ ok p
      → p.mint_enabled ≡ true
      → value p.mint_amount ≡ some z
      → (z ≡ pos 0 → ⊥)
      → (valid_denom p.mint_denom ≡ false) ⊎ ((k : ℕ) × (z ≡ negsuc k))
      → mint_fixed_block_reward n sdk c ≡ (panic, c)
  unfolding mint_and_send
  reward_panics p z c g on v nz (inl bad) =
      reward_mints p z c g on v nz ∙ rw (new_coin_bad_denom p.mint_denom p.mint_amount bad)
  reward_panics p z c g on v nz (inr (k, e)) =
      reward_mints p z c g on v nz
      ∙ rw (new_coin_negative p.mint_denom p.mint_amount k (v ∙ ap some e))

  -- The parameters under which a block pays `suc k` coins.
  pub record Pays (p : Params Int) (k : ℕ) : Type 0 where
    pub enabled : p.mint_enabled ≡ true
    pub amount : value p.mint_amount ≡ some (pos (suc k))
    pub denom : valid_denom p.mint_denom ≡ true

  -- What has been paid between two states: the fee collector has `total` coins of the denom more, and
  -- so has the supply; no other balance and no parameter has changed.
  pub record Paid (p : Params Int) (total : ℕ) (c c' : Ctx n sdk) : Type 0 where
    pub kv : c'.kv ≡ c.kv
    pub balances :
        (a d : Bytes)
        → balance c'.bank a d
          ≡ balance c.bank a d
            + (if bytes_eq a (module_address fee_collector_name)
                then (if bytes_eq p.mint_denom d then total else 0)
                else 0)
    pub supplies :
        (d : Bytes)
        → supply c'.bank d ≡ supply c.bank d + (if bytes_eq p.mint_denom d then total else 0)

  -- In the denom `total` more can be minted and be held by the fee collector, and one payment of `paid` by
  -- the module in between, within the bounds of an integer.
  pub record HasRoom (p : Params Int) (paid total : ℕ) (c : Ctx n sdk) : Type 0 where
    pub in_supply : supply c.bank p.mint_denom + total < int_limit
    pub in_collector :
        balance c.bank (module_address fee_collector_name) p.mint_denom + total < int_limit
    pub in_module : balance c.bank (module_address module_name) p.mint_denom + paid < int_limit

  module _ (p : Params Int) (k : ℕ) (pays : Pays p k) (c : Ctx n sdk)
      (g : get_params n sdk c ≡ ok p) where
    abbrev reward : sdk.Coins
    reward = single p.mint_denom (suc k)

    pos-suc-ne : pos (suc k) ≡ pos 0 → ⊥
    pos-suc-ne e = cc

    -- The coins are made, and the bank is called twice.
    reward_calls : mint_fixed_block_reward n sdk c ≡ mint_and_send n sdk p c
    reward_calls = reward_mints p (pos (suc k)) c g pays.enabled pays.amount pos-suc-ne

    -- The two calls of the bank.
    bank_calls :
        mint_fixed_block_reward n sdk c
        ≡ ◌>>=◌ n sdk
            (on_bank n sdk (mint_coins module_name reward))
            (λ _.
              on_bank n sdk
                (send_coins_from_module_to_module module_name fee_collector_name reward))
            c
    unfolding mint_and_send
    bank_calls =
        reward_calls
        ∙ rw (new_coin_lem p.mint_denom p.mint_amount (suc k) pays.denom pays.amount)
            (rw (new_coins_lem p.mint_denom k))

    -- An error of `MintCoins` is the block's, and nothing is sent.
    pub reward_mint_fails :
        (e : Error) (b : sdk.Bank)
        → mint_coins module_name reward c.bank ≡ (err e, b)
        → mint_fixed_block_reward n sdk c ≡ (err e, record c { bank = b })
    reward_mint_fails e b m =
        bank_calls
        ∙ >>=_err n sdk (on_bank n sdk (mint_coins module_name reward)) _ c (record c { bank = b })
            e (on_bank_lem n sdk (mint_coins module_name reward) c (err e) b m)

    reward_minted :
        (b b' : sdk.Bank) (r : Outcome (Unit {0}))
        → mint_coins module_name reward c.bank ≡ (ok tt, b)
        → send_coins_from_module_to_module module_name fee_collector_name reward b ≡ (r, b')
        → mint_fixed_block_reward n sdk c ≡ (r, record c { bank = b' })
    reward_minted b b' r m s =
        bank_calls
        ∙ >>=_ok n sdk (on_bank n sdk (mint_coins module_name reward)) _ c (record c { bank = b })
            tt (on_bank_lem n sdk (mint_coins module_name reward) c (ok tt) b m)
        ∙ on_bank_lem n sdk (send_coins_from_module_to_module module_name fee_collector_name reward)
            (record c { bank = b }) r b' s

    -- An error of `SendCoinsFromModuleToModule` is the block's, and what was minted stays minted.
    pub reward_send_fails :
        (e : Error) (b b' : sdk.Bank)
        → mint_coins module_name reward c.bank ≡ (ok tt, b)
        → send_coins_from_module_to_module module_name fee_collector_name reward b ≡ (err e, b')
        → mint_fixed_block_reward n sdk c ≡ (err e, record c { bank = b' })
    reward_send_fails e b b' m s = reward_minted b b' (err e) m s

    paid :
        (b b' : sdk.Bank)
        → mint_coins module_name reward c.bank ≡ (ok tt, b)
        → send_coins_from_module_to_module module_name fee_collector_name reward b ≡ (ok tt, b')
        → Paid p (suc k) c (record c { bank = b' })
    paid b b' m s = record {
      kv = refl;
      balances = λ a d. rw (← amount_of-single p.mint_denom d (suc k)) (
          omega (
            arith,
            mint_balance module_name reward c.bank b a d m,
            send_balance module_name fee_collector_name reward b b' a d s,
          ));
      supplies = λ d. rw (← amount_of-single p.mint_denom d (suc k)) (
          omega (
            arith,
            mint_supply module_name reward c.bank b d m,
            send_supply module_name fee_collector_name reward b b' d s,
          ));
    }

    -- The reward is in the denom of the parameters, and nothing else.
    reward_only :
        (P : Bytes → ℕ → Type 0)
        → P p.mint_denom (suc k)
        → (d : Bytes) → 0 < amount_of reward d
        → P d (amount_of reward d)
    reward_only P h d pos' = elim (Bool-cases (bytes_eq p.mint_denom d)) [
      | inl same ↦
          let all : amount_of reward d ≡ suc k =
            amount_of-single p.mint_denom d (suc k) ∙ rw same refl in
          subst (λ m. P d m) (sym all)
            (subst (λ e. P e (suc k)) (bytes_eq→eq p.mint_denom d same) h)
      | inr other ↦
          let none' : amount_of reward d ≡ 0 =
            amount_of-single p.mint_denom d (suc k) ∙ rw other refl in
          absurd (omega arith)
    ]

    -- With the permission to mint, a fee collector, and room for the amount, the block ends well, and it has
    -- paid.
    pub reward-Paid :
        can_mint module_name ≡ true
        → is_module fee_collector_name ≡ true
        → HasRoom p (suc k) (suc k) c
        → (c' : Ctx n sdk) × (mint_fixed_block_reward n sdk c ≡ (ok tt, c')) × Paid p (suc k) c c'
    reward-Paid permitted known room =
        let at_module = module_address module_name in
        let at_collector = module_address fee_collector_name in
        let (b, m) =
          mint_succeeds module_name reward c.bank permitted
            (reward_only (λ d x. supply c.bank d + x < int_limit) room.in_supply)
            (reward_only (λ d x. balance c.bank at_module d + x < int_limit) room.in_module) in
        let covered : (d : Bytes) → amount_of reward d ≤ balance b at_module d = λ d. omega (
          arith,
          rw (bytes_eq_refl at_module) at (mint_balance module_name reward c.bank b at_module d m),
        ) in
        let same : balance b at_collector p.mint_denom ≡ balance c.bank at_collector p.mint_denom =
          omega (
            arith,
            rw (module_address_ne fee_collector_name module_name refl) at
                (mint_balance module_name reward c.bank b at_collector p.mint_denom m),
          ) in
        let holds = rw (← same) at room.in_collector in
        let (b', s) =
          send_succeeds module_name fee_collector_name reward b known covered
            (reward_only (λ d x. balance b at_collector d + x < int_limit) holds) in
        (record c { bank = b' }, reward_minted b b' (ok tt) m s, paid b b' m s)
