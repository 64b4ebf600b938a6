-- ===== src/Fixedmint/Keeper/Frame.antt =====
-- What the keeper's calls leave alone.
use bluechip_chain_official.Prelude.{
  ◌≡◌, refl, sym, subst, ◌∙◌, ap, Bool, true, false, Outcome, ok, err, panic, stuck, Bytes,
  bytes_eq, [], ◌∷◌, arith, if◌then◌else◌, bytes_eq_refl, Bool-cases, inl, inr,
}
use bluechip_chain_official.MathInt.{MathInt, MathIntLaws}
use bluechip_chain_official.Sdk.{Sdk, SdkLaws}
use bluechip_chain_official.Fixedmint.Params.{Params}
use bluechip_chain_official.Fixedmint.Keeper.Calls.{go_on-ok}
use bluechip_chain_official.Fixedmint.Keeper.{
  Ctx, lift, on_bank, MsgUpdateParams, module_name, fee_collector_name, get_params, set_params,
  update_params, skips_mint, mint_and_send, mint_fixed_block_reward,
}

module _ (n : MathInt) (sdk : Sdk n) where
  -- The parameters stand in the module's store alone.
  pub get_params_kv : (c c' : Ctx n sdk) → c.kv ≡ c'.kv → get_params n sdk c ≡ get_params n sdk c'
  unfolding get_params
  get_params_kv c c' e = ap (λ (kv : sdk.Kv). get_params n sdk (record c { kv = kv })) e

  set_params_bank :
      (p : Params n.Int) (c : Ctx n sdk) (r : Outcome Bytes)
      → sdk.cdc_marshal p ≡ r
      → (set_params n sdk p c).1.bank ≡ c.bank
  unfolding set_params
  set_params_bank p c (ok bz) e = rw (e, set_params)
  set_params_bank p c (err x) e = rw (e, set_params)
  set_params_bank p c panic e = rw (e, set_params)
  set_params_bank p c stuck e = rw (e, set_params)

  -- No message reaches the bank, whoever sends it and whatever comes of it.
  pub update_params_bank :
      (authority : Bytes) (req : MsgUpdateParams n.Int) (c : Ctx n sdk)
      → (update_params n sdk authority req c).1.bank ≡ c.bank
  unfolding update_params
  update_params_bank authority req c = elim (Bool-cases (bytes_eq authority req.authority)) [
    | inl same ↦ rw same (set_params_bank req.params c (sdk.cdc_marshal req.params) refl)
    | inr other ↦ rw other
  ]

module _ (n : MathInt) (laws : MathIntLaws n) (sdk : Sdk n) (sdk_laws : SdkLaws n laws sdk) where
  open sdk_laws use {balance, mint_balance, send_balance, module_address_ne, amount_of}
  open sdk use {module_address}

  -- The module's account has the same coins, in every denom.
  abbrev pub SameAccount : sdk.Bank → sdk.Bank → Type 0
  SameAccount b b' =
      (d : Bytes)
      → balance b' (module_address module_name) d ≡ balance b (module_address module_name) d

  -- The same parameters, and the same coins on the module's account.
  pub record Same (c c' : Ctx n sdk) : Type 0 where
    pub kv : c'.kv ≡ c.kv
    pub account : SameAccount c.bank c'.bank

  pub Same-refl : (c : Ctx n sdk) → Same c c
  Same-refl c = record { kv = refl; account = λ d. refl }

  pub Same-trans : (c c1 c2 : Ctx n sdk) → Same c c1 → Same c1 c2 → Same c c2
  Same-trans c c1 c2 x y = record { kv = y.kv ∙ x.kv; account = λ d. y.account d ∙ x.account d }

  -- A result that is put before a call does not change the state.
  Same-lift :
      {A : Type 0} (x y : Outcome A) (c c1 c2 : Ctx n sdk)
      → ◌≡◌ {A = Outcome A × Ctx n sdk} (x, c) (y, c1)
      → Same c1 c2
      → Same c c2
  Same-lift {A} x y c c1 c2 e s = subst (λ (t : Outcome A × Ctx n sdk). Same t.1 c2) (sym e) s

  -- The two accounts of the reward are not one.
  accounts_differ :
      bytes_eq (module_address module_name) (module_address fee_collector_name) ≡ false
  accounts_differ = module_address_ne module_name fee_collector_name refl

  on_bank-ok :
      (f : sdk.Bank → Outcome (Unit {0}) × sdk.Bank) (c c' : Ctx n sdk)
      → on_bank n sdk f c ≡ (ok tt, c')
      → (f c.bank ≡ (ok tt, c'.bank)) × (c'.kv ≡ c.kv)
  on_bank-ok f c c' h = (
    ap (λ (x : Outcome (Unit {0}) × Ctx n sdk). (x.0, x.1.bank)) h,
    sym (ap (λ (x : Outcome (Unit {0}) × Ctx n sdk). x.1.kv) h),
  )

  -- Both calls of the bank went well: what was minted has left the module's account.
  pair_keeps :
      (amount : sdk.Coins) (b b1 b2 : sdk.Bank)
      → sdk.mint_coins module_name amount b ≡ (ok tt, b1)
      → sdk.send_coins_from_module_to_module module_name fee_collector_name amount b1 ≡ (ok tt, b2)
      → SameAccount b b2
  pair_keeps amount b b1 b2 m s d =
      let minted =
        rw (bytes_eq_refl (module_address module_name)) at
          (mint_balance module_name amount b b1 (module_address module_name) d m) in
      let sent =
        rw (bytes_eq_refl (module_address module_name), accounts_differ) at
          (send_balance module_name fee_collector_name amount b1 b2 (module_address module_name) d
            s) in
      omega (arith, minted, sent)

  mint_and_send_keeps :
      (p : Params n.Int) (c c' : Ctx n sdk) → mint_and_send n sdk p c ≡ (ok tt, c') → Same c c'
  unfolding mint_and_send
  mint_and_send_keeps p c c' h =
      let (coin, c1, made, h1) =
        go_on-ok n sdk _ (sdk.new_coin p.mint_denom p.mint_amount, c) tt c' h in
      let (amount, c2, sum, h2) = go_on-ok n sdk _ (sdk.new_coins (coin ∷ []), c1) tt c' h1 in
      let mint = sdk.mint_coins module_name amount in
      let send = sdk.send_coins_from_module_to_module module_name fee_collector_name amount in
      let (u, c3, minted, sent) = go_on-ok n sdk _ (on_bank n sdk mint c2) tt c' h2 in
      let (m, kv1) = on_bank-ok mint c2 c3 minted in
      let (s, kv2) = on_bank-ok send c3 c' sent in
      Same-lift _ _ c c1 c' made (
        Same-lift _ _ c1 c2 c' sum
          (record { kv = kv2 ∙ kv1; account = pair_keeps amount c2.bank c3.bank c'.bank m s }))

  skip_or_pay_keeps :
      (p : Params n.Int) (skips : Bool) (c c' : Ctx n sdk)
      → (if skips then lift n sdk (ok tt) else mint_and_send n sdk p) c ≡ (ok tt, c')
      → Same c c'
  skip_or_pay_keeps p true c c' h = Same-lift _ _ c c' c' h (Same-refl c')
  skip_or_pay_keeps p false c c' h = mint_and_send_keeps p c c' h

  -- A block that ends well leaves the parameters and the module's own account as they were.
  pub reward_keeps : (c c' : Ctx n sdk) → mint_fixed_block_reward n sdk c ≡ (ok tt, c') → Same c c'
  unfolding mint_fixed_block_reward
  reward_keeps c c' h =
      let (p, c1, g, h1) = go_on-ok n sdk _ (get_params n sdk c, c) tt c' h in
      let (skips, c2, s, h2) = go_on-ok n sdk _ (skips_mint n sdk p, c1) tt c' h1 in
      Same-lift _ _ c c1 c' g (Same-lift _ _ c1 c2 c' s (skip_or_pay_keeps p skips c2 c' h2))
