-- ===== src/Tests/OfModule.antt =====
-- The module in a chain, at concrete states.
use bluechip_chain_official.Prelude.{
  refl, Bytes, Outcome, ◌*◌, ◌≡◌, true, bytes, [], ◌∷◌, ok, panic, arith,
}
use bluechip_chain_official.MathInt.{pos}
use bluechip_chain_official.MathInt.Sample.{sample, sample_laws}
use bluechip_chain_official.Fixedmint.Keeper.{
  Ctx, get_params, update_params, validate_basic, module_account_invariant,
}
use bluechip_chain_official.Fixedmint.Keeper.Reward.{Paid}
use bluechip_chain_official.Fixedmint.Module.{
  app_init_genesis, app_export_genesis, GenesisState, run_blocks, begin_block, init_genesis,
  export_genesis,
}
use bluechip_chain_official.Fixedmint.Module.Blocks.{run_blocks-Paid}
use bluechip_chain_official.Fixedmint.Module.Chain.{
  message, Reach, in_message, module_account_invariant-Reach, get_params-Reach, residue-Reach,
}
use bluechip_chain_official.Fixedmint.Module.Halts.{begin_block-update_params}
use bluechip_chain_official.Fixedmint.Module.Genesis.{
  export_genesis-init_genesis, app_init_genesis-app_export_genesis,
}
use bluechip_chain_official.Tests.Data.{
  sdk, sdk_laws, start, paying, paying-params, five_coins, five_coins-amount, five_coins-FitsInt,
  paying-HasRoom, five_coins-Pays, may_mint, has_collector, short_denom-FitsInt, request,
  gov-ne-mallory, bad_request, any_address, short_denom-ne-nil, sent_to, sent_to-residue,
  short_denom-amount, short_denom-enabled, short_denom-invalid,
}

run_blocks-Paid_example :
    (c' : Ctx sample sdk) × (run_blocks sample sdk 3 paying ≡ (ok tt, c'))
    × Paid sample sample_laws sdk sdk_laws five_coins (3 * 5) paying c'
run_blocks-Paid_example =
    run_blocks-Paid sample sample_laws sdk sdk_laws 3 five_coins 4 paying paying-params
      five_coins-Pays may_mint has_collector (paying-HasRoom (3 * 5) (omega arith))

-- A request that is refused.
abbrev pub refused : Ctx sample sdk
refused = (update_params sample sdk (bytes "mallory") request start).1

abbrev one_message :
    Reach sample sample_laws sdk sdk_laws (bytes "mallory") (message request ∷ []) start refused
one_message = Reach.next (in_message request) Reach.start

module_account_invariant-Reach_example :
    module_account_invariant sample sdk refused ≡ module_account_invariant sample sdk start
module_account_invariant-Reach_example =
    module_account_invariant-Reach sample sample_laws sdk sdk_laws (bytes "mallory")
      (message request ∷ []) start refused one_message

get_params-Reach_example : get_params sample sdk refused ≡ get_params sample sdk start
get_params-Reach_example =
    get_params-Reach sample sample_laws sdk sdk_laws (bytes "mallory") (message request ∷ []) start
      refused one_message (gov-ne-mallory, tt)

export_genesis-init_genesis_example :
    ((init_genesis sample sdk (record { params = five_coins }) start).0 ≡ ok tt)
    × (export_genesis sample sdk (init_genesis sample sdk (record { params = five_coins }) start).1
        ≡ ok (record { params = five_coins }))
    × ((init_genesis sample sdk (record { params = five_coins }) start).1.bank ≡ start.bank)
export_genesis-init_genesis_example =
    export_genesis-init_genesis sample sample_laws sdk sdk_laws (record { params = five_coins })
      (pos 5) start five_coins-amount five_coins-FitsInt

begin_block-update_params_example :
    (validate_basic sample sdk bad_request ≡ ok tt)
    × ((update_params sample sdk (bytes "gov") bad_request start).0 ≡ ok tt)
    × ((begin_block sample sdk (update_params sample sdk (bytes "gov") bad_request start).1).0
        ≡ panic)
begin_block-update_params_example =
    begin_block-update_params sample sample_laws sdk sdk_laws bad_request 4 (bytes "gov") start
      any_address short_denom-ne-nil short_denom-invalid short_denom-enabled short_denom-amount
      short_denom-FitsInt

residue-Reach_example :
    module_account_invariant sample sdk
      (update_params sample sdk (bytes "mallory") request sent_to).1
    ≡ true
residue-Reach_example =
    residue-Reach sample sample_laws sdk sdk_laws (bytes "mallory") (message request ∷ []) sent_to
      (update_params sample sdk (bytes "mallory") request sent_to).1 (bytes "ubluechip")
      (Reach.next (in_message request) Reach.start) sent_to-residue

-- A JSON codec that knows one state.
abbrev to_json : GenesisState sample.Int → Outcome Bytes
to_json gs = ok (bytes "{}")

abbrev of_json : Bytes → Outcome (GenesisState sample.Int)
of_json bz = ok (record { params = five_coins })

app_init_genesis-app_export_genesis_example :
    (app_export_genesis sample sdk to_json paying ≡ ok (bytes "{}"))
    × (get_params sample sdk (app_init_genesis sample sdk of_json (bytes "{}") start).1
        ≡ ok five_coins)
app_init_genesis-app_export_genesis_example =
    app_init_genesis-app_export_genesis sample sample_laws sdk sdk_laws to_json of_json five_coins
      (pos 5) (bytes "{}") paying start refl refl paying-params five_coins-amount five_coins-FitsInt
