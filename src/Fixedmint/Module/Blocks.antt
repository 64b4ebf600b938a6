-- ===== src/Fixedmint/Module/Blocks.antt =====
-- Many blocks of the module, one after another.
use bluechip_chain_official.Prelude.{
  ℕ, zero, suc, ◌+◌, ◌*◌, ◌≡◌, refl, ◌∙◌, ap, arith, true, false, ok, ◌⊎◌, some, bytes_eq_refl,
}
use bluechip_chain_official.MathInt.{pos, MathInt, MathIntLaws}
use bluechip_chain_official.Sdk.{Sdk, SdkLaws}
use bluechip_chain_official.Fixedmint.Params.{Params}
use bluechip_chain_official.Fixedmint.Keeper.{
  Ctx, go_on, module_name, fee_collector_name, get_params, mint_fixed_block_reward,
}
use bluechip_chain_official.Fixedmint.Keeper.Frame.{get_params_kv}
use bluechip_chain_official.Fixedmint.Keeper.Reward.{
  Pays, Paid, HasRoom, reward-Paid, reward_skipped,
}
use bluechip_chain_official.Fixedmint.Module.{begin_block, end_block, run_blocks}

module _ (n : MathInt) (laws : MathIntLaws n) (sdk : Sdk n) (sdk_laws : SdkLaws n laws sdk) where
  open sdk_laws use {can_mint, is_module, balance, supply}

  Paid-none :
      (p : Params n.Int) (total : ℕ) (c : Ctx n sdk)
      → total ≡ 0
      → Paid n laws sdk sdk_laws p total c c
  Paid-none p total c e = record {
    kv = refl;
    balances = λ a d. ground arith;
    supplies = λ d. ground arith;
  }

  Paid-both :
      (p : Params n.Int) (x y total : ℕ) (c c1 c2 : Ctx n sdk)
      → total ≡ x + y
      → Paid n laws sdk sdk_laws p x c c1
      → Paid n laws sdk sdk_laws p y c1 c2
      → Paid n laws sdk sdk_laws p total c c2
  Paid-both p x y total c c1 c2 e a b = record {
    kv = b.kv ∙ a.kv;
    balances = λ i d. ground (arith, a.balances i d, b.balances i d);
    supplies = λ d. ground (arith, a.supplies d, b.supplies d);
  }

  -- One block and then the rest of them.
  run_blocks_next :
      (blocks : ℕ) (c c1 : Ctx n sdk)
      → mint_fixed_block_reward n sdk c ≡ (ok tt, c1)
      → run_blocks n sdk (suc blocks) c ≡ run_blocks n sdk blocks c1
  unfolding run_blocks begin_block end_block
  run_blocks_next blocks c c1 h =
      ap
        (λ x.
          go_on n sdk (λ _ c'. go_on n sdk (λ _. run_blocks n sdk blocks) (end_block n sdk c')) x)
        h

  -- The room that is left behind the first block.
  room_left :
      (p : Params n.Int) (k blocks : ℕ) (c c1 : Ctx n sdk)
      → HasRoom n laws sdk sdk_laws p (suc k) (suc k + blocks * suc k) c
      → Paid n laws sdk sdk_laws p (suc k) c c1
      → HasRoom n laws sdk sdk_laws p (suc k) (blocks * suc k) c1
  room_left p k blocks c c1 room first =
      let same = bytes_eq_refl p.mint_denom in
      let at_collector = sdk.module_address fee_collector_name in
      let at_module = sdk.module_address module_name in
      record {
        in_supply = omega (arith, room.in_supply, rw same at (first.supplies p.mint_denom));
        in_collector = omega (
          arith,
          room.in_collector,
          rw (bytes_eq_refl at_collector, same) at (first.balances at_collector p.mint_denom),
        );
        in_module = omega (
          arith,
          room.in_module,
          rw (sdk_laws.module_address_ne module_name fee_collector_name refl) at
              (first.balances at_module p.mint_denom),
        );
      }

  first_room :
      (p : Params n.Int) (k blocks : ℕ) (c : Ctx n sdk)
      → HasRoom n laws sdk sdk_laws p (suc k) (suc k + blocks * suc k) c
      → HasRoom n laws sdk sdk_laws p (suc k) (suc k) c
  first_room p k blocks c room = record {
    in_supply = omega (arith, room.in_supply);
    in_collector = omega (arith, room.in_collector);
    in_module = room.in_module;
  }

  -- With minting enabled, a positive amount and a denom of the SDK, with the permission to mint and a fee
  -- collector, and where the supply and the balances have room for what is paid, the blocks end well, and
  -- each has paid the amount once.
  pub run_blocks-Paid :
      (blocks : ℕ) (p : Params n.Int) (k : ℕ) (c : Ctx n sdk)
      → get_params n sdk c ≡ ok p
      → Pays n laws sdk sdk_laws p k
      → can_mint module_name ≡ true
      → is_module fee_collector_name ≡ true
      → HasRoom n laws sdk sdk_laws p (suc k) (blocks * suc k) c
      → (c' : Ctx n sdk) × (run_blocks n sdk blocks c ≡ (ok tt, c'))
        × Paid n laws sdk sdk_laws p (blocks * suc k) c c'
  unfolding run_blocks
  run_blocks-Paid zero p k c g pays permitted known room =
      (c, refl, Paid-none p (0 * suc k) c (omega arith))
  run_blocks-Paid (suc blocks) p k c g pays permitted known room =
      let sum : suc blocks * suc k ≡ suc k + blocks * suc k = omega arith in
      let room' = rw sum at room in
      let (c1, done, first) =
        reward-Paid n laws sdk sdk_laws p k pays c g permitted known
          (first_room p k blocks c room') in
      let again = get_params_kv n sdk c1 c first.kv ∙ g in
      let (c2, rest, others) =
        run_blocks-Paid blocks p k c1 again pays permitted known
          (room_left p k blocks c c1 room' first) in
      (
        c2,
        run_blocks_next blocks c c1 done ∙ rest,
        Paid-both p (suc k) (blocks * suc k) (suc blocks * suc k) c c1 c2 sum first others,
      )

  -- With minting disabled, or an amount of 0, any number of blocks end well and change nothing.
  pub run_blocks_skipped :
      (blocks : ℕ) (p : Params n.Int) (c : Ctx n sdk)
      → get_params n sdk c ≡ ok p
      → (p.mint_enabled ≡ false) ⊎ (laws.value p.mint_amount ≡ some (pos 0))
      → run_blocks n sdk blocks c ≡ (ok tt, c)
  unfolding run_blocks
  run_blocks_skipped zero p c g off = refl
  run_blocks_skipped (suc blocks) p c g off =
      run_blocks_next blocks c c (reward_skipped n laws sdk sdk_laws p c g off)
      ∙ run_blocks_skipped blocks p c g off
