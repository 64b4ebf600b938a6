-- ===== src/Fixedmint/Module.antt =====
-- The module itself: x/fixedmint/module, with the genesis state of x/fixedmint/types.
pub mod Genesis
pub mod Chain
pub mod Blocks
pub mod Halts
use bluechip_chain_official.Prelude.{
  ℕ, zero, suc, Bool, true, false, not, Bytes, bytes, bytes_eq, [], Outcome, ok, err, panic, stuck,
  ◌>>=◌, must, if◌then◌else◌, text,
}
use bluechip_chain_official.MathInt.{MathInt}
use bluechip_chain_official.Sdk.{Sdk}
use bluechip_chain_official.Fixedmint.Params.{Params, default_params, validate}
use bluechip_chain_official.Fixedmint.Keeper.{
  Ctx, Action, go_on, get_params, set_params, mint_fixed_block_reward,
}

pub record GenesisState (Int : Type 0) : Type 0 where
  pub params : Params Int

-- A call whose error the caller makes a panic.
abbrev pub or_panic : {S : Type 0} → Outcome (Unit {0}) × S → Outcome (Unit {0}) × S
or_panic (r, c) = (must r, c)

module _ (n : MathInt) where
  open n use {Int}

  unfoldable pub default_genesis : GenesisState Int
  default_genesis = record { params = default_params n }

  unfoldable pub validate_genesis_state : GenesisState Int → Outcome (Unit {0})
  validate_genesis_state gs = validate n gs.params

  -- `AppModuleBasic.ValidateGenesis`, over the JSON codec's `UnmarshalJSON`.
  unfoldable pub validate_genesis :
      (Bytes → Outcome (GenesisState Int)) → Bytes → Outcome (Unit {0})
  unfolding validate_genesis_state
  validate_genesis unmarshal_json bz = do gs ← unmarshal_json bz; validate_genesis_state gs

  module _ (sdk : Sdk n) where
    -- `InitGenesis` of genesis.go
    unfoldable pub init_genesis : GenesisState Int → Action n sdk (Unit {0})
    init_genesis gs c = or_panic (set_params n sdk gs.params c)

    -- `ExportGenesis` of genesis.go: the default, with its parameters replaced.
    unfoldable pub export_genesis : Ctx n sdk → Outcome (GenesisState Int)
    unfolding default_genesis
    export_genesis c = do
      params ← get_params n sdk c
      let genesis = default_genesis
      ok (record genesis { params = params })

    -- `AppModule.InitGenesis` and `AppModule.ExportGenesis`, over the JSON codec.
    unfoldable pub app_init_genesis :
        (Bytes → Outcome (GenesisState Int)) → Bytes → Action n sdk (Unit {0})
    unfolding init_genesis
    app_init_genesis unmarshal_json bz c =
        go_on n sdk (λ gs. init_genesis gs) (must (unmarshal_json bz), c)

    unfoldable pub app_export_genesis :
        (GenesisState Int → Outcome Bytes) → Ctx n sdk → Outcome Bytes
    unfolding export_genesis
    app_export_genesis marshal_json c = do gs ← export_genesis c; must (marshal_json gs)

    unfoldable pub begin_block : Action n sdk (Unit {0})
    begin_block c = mint_fixed_block_reward n sdk c

    unfoldable pub end_block : Action n sdk (Unit {0})
    end_block c = (ok tt, c)

    -- So many blocks of this module, as long as each ends well.
    unfoldable pub run_blocks : ℕ → Action n sdk (Unit {0})
    unfolding begin_block end_block
    run_blocks zero c = (ok tt, c)
    run_blocks (suc blocks) c =
        go_on n sdk (λ _ c'. go_on n sdk (λ _. run_blocks blocks) (end_block c')) (begin_block c)
