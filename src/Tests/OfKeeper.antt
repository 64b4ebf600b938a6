-- ===== src/Tests/OfKeeper.antt =====
-- The keeper at concrete states.
use bluechip_chain_official.Prelude.{◌≡◌, ◌↔◌, refl, bytes, ok, panic, inl, arith}
use bluechip_chain_official.MathInt.{pos}
use bluechip_chain_official.MathInt.Sample.{sample, sample_laws}
use bluechip_chain_official.Fixedmint.Keeper.{
  Ctx, get_params, set_params, update_params, mint_fixed_block_reward,
}
use bluechip_chain_official.Fixedmint.Keeper.Reward.{Paid, reward_panics, reward-Paid}
use bluechip_chain_official.Fixedmint.Keeper.Authority.{update_params_iff, update_params-get_params}
use bluechip_chain_official.Tests.Data.{
  sdk, sdk_laws, start, paying, paying-params, five_coins, five_coins-amount, five_coins-FitsInt,
  paying-HasRoom, five_coins-Pays, may_mint, has_collector, short_denom, request, halting,
  halting-params, short_denom-amount, short_denom-enabled, short_denom-invalid,
}

reward_panics_example : mint_fixed_block_reward sample sdk halting ≡ (panic, halting)
reward_panics_example =
    reward_panics sample sample_laws sdk sdk_laws short_denom (pos 5) halting halting-params
      short_denom-enabled short_denom-amount (λ e. cc) (inl short_denom-invalid)

reward-Paid_example :
    (c' : Ctx sample sdk) × (mint_fixed_block_reward sample sdk paying ≡ (ok tt, c'))
    × Paid sample sample_laws sdk sdk_laws five_coins 5 paying c'
reward-Paid_example =
    reward-Paid sample sample_laws sdk sdk_laws five_coins 4 five_coins-Pays paying paying-params
      may_mint has_collector (paying-HasRoom 5 (omega arith))

update_params_iff_example :
    ((update_params sample sdk (bytes "gov") request start).0 ≡ ok tt)
    ↔ ((bytes "gov" ≡ request.authority) × ((set_params sample sdk request.params start).0 ≡ ok tt))
update_params_iff_example = update_params_iff sample sdk (bytes "gov") request start

update_params-get_params_example :
    ((update_params sample sdk (bytes "gov") request start).0 ≡ ok tt)
    × (get_params sample sdk (update_params sample sdk (bytes "gov") request start).1
        ≡ ok five_coins)
    × ((update_params sample sdk (bytes "gov") request start).1.bank ≡ start.bank)
update_params-get_params_example =
    update_params-get_params sample sample_laws sdk sdk_laws (bytes "gov") request (pos 5) start
      refl five_coins-amount five_coins-FitsInt
