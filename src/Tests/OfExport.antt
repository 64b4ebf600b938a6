-- ===== src/Tests/OfExport.antt =====
-- The export of the state at concrete inputs.
use bluechip_chain_official.Prelude.{
  ℕ, ◌+◌, ◌≡◌, refl, arith, false, some, List, [], ◌∷◌, map, Bytes, ok, if◌then◌else◌,
}
use bluechip_chain_official.App.ZeroHeight.{
  Validator, each, mem_bytes, reset_validator, reinitialize_validator,
}
use bluechip_chain_official.App.ZeroHeight.Sample.{World, keepers, validator_laws, pool_laws}
use bluechip_chain_official.App.ZeroHeight.Validators.{AllFound, as_new, reset_validators-get}
use bluechip_chain_official.App.ZeroHeight.Pool.{Owed, with_owed, reinitialize-fee_pool}
use bluechip_chain_official.App.Export.{
  ExportedApp, Exporter, export_app_state_and_validators, ExportsState, export-ok,
}

abbrev alice : Bytes
alice = 97 ∷ []

abbrev bob : Bytes
bob = 98 ∷ []

-- Every address has a validator, which began to unbond at height 7.
abbrev world : World
world = record {
  height = 9;
  keys = bob ∷ alice ∷ [];
  held = λ a. some (7, false, 1);
  owed = λ a. 3;
  pool = 10;
}

world-AllFound : AllFound keepers validator_laws (alice ∷ []) (bob ∷ alice ∷ []) world
world-AllFound a h = (record { operator = a; unbonding_height = 7; jailed = false; more = 1 }, refl)

-- Only alice is allowed.
reset_validators-get_example :
    (s' : World) × (each (reset_validator keepers (alice ∷ [])) (bob ∷ alice ∷ []) world ≡ ok s')
    × ((a : Bytes) (v : Validator)
        → keepers.get_validator a world ≡ ok v
        → keepers.get_validator a s'
          ≡ ok (
              if mem_bytes a (bob ∷ alice ∷ [])
              then as_new keepers validator_laws (alice ∷ []) a v
              else v))
reset_validators-get_example =
    reset_validators-get keepers validator_laws (alice ∷ []) (bob ∷ alice ∷ []) world world-AllFound

abbrev validator_of : Bytes → Validator
validator_of a = record { operator = a; unbonding_height = 7; jailed = false; more = 1 }

abbrev dues : List (Owed ℕ)
dues =
    record { validator = validator_of alice; address = alice; coins = 3 }
    ∷ record { validator = validator_of bob; address = bob; coins = 3 }
    ∷ []

reinitialize-fee_pool_example :
    (s' : World) × (each
        (reinitialize_validator keepers)
        (map (λ (o : Owed ℕ). o.validator) dues)
        world
      ≡ ok s')
    × (keepers.fee_pool s' ≡ ok (with_owed keepers pool_laws 10 dues))
reinitialize-fee_pool_example =
    reinitialize-fee_pool keepers pool_laws dues 10 world (((λ e. ground arith), tt), (tt, tt))
      ((refl, refl), ((refl, refl), tt)) refl

abbrev exporter : Exporter World ℕ ℕ ℕ
exporter = record {
  new_context = λ h. record world { height = h };
  export_genesis_for_modules = λ ms s. ok s.pool;
  marshal_indent = λ g. ok (g ∷ []);
  write_validators = λ s. ok 2;
  get_consensus_params = λ s. s.height;
}

abbrev exported : ExportedApp ℕ ℕ
exported = record { app_state = 10 ∷ []; validators = 2; height = 9; consensus_params = 8 }

export-ok_example :
    (s : World) × (genesis : ℕ) × ExportsState keepers exporter 8 false [] s
    × (exporter.export_genesis_for_modules [] s ≡ ok genesis)
    × (exporter.marshal_indent genesis ≡ ok exported.app_state)
    × (exporter.write_validators s ≡ ok exported.validators)
    × (exported.height ≡ (if false then 0 else 8 + 1))
    × (exported.consensus_params ≡ exporter.get_consensus_params s)
unfolding export_app_state_and_validators
export-ok_example = export-ok keepers exporter 8 false [] [] exported refl
