-- ===== src/App/Ante.antt =====
-- `NewAnteHandler` of app/ante.go. The keepers and the constructors of the SDK's and wasmd's decorators
-- are parameters.
pub mod Laws
use bluechip_chain_official.Prelude.{
  ℕ, Bool, true, false, Option, none, some, Bytes, bytes, List, [], ◌∷◌, Outcome, ok, err, Error,
  text, ◌>>=◌, ◌>>◌, fail_if,
}

-- The decorators, by the package's constructors, with what they are given.
pub data Decorator (Keeper : Type 0) : Type 0 where
  set_up_context validate_basic tx_timeout_height : Decorator Keeper
  limit_simulation_gas count_tx gas_register circuit_breaker : Keeper → Decorator Keeper
  extension_options redundant_relay : Option Keeper → Decorator Keeper
  validate_memo consume_gas_for_tx_size set_pub_key validate_sig_count : Keeper → Decorator Keeper
  increment_sequence : Keeper → Decorator Keeper
  deduct_fee : Keeper → Keeper → Option Keeper → Option Keeper → Decorator Keeper
  sig_gas_consume : Keeper → Option Keeper → Decorator Keeper
  sig_verification : Keeper → Keeper → Decorator Keeper

-- A field is none where it is nil. One type stands for all that the fields can hold.
pub record HandlerOptions (Keeper : Type 0) : Type 0 where
  pub account_keeper : Option Keeper
  pub bank_keeper : Option Keeper
  pub sign_mode_handler : Option Keeper
  pub wasm_config : Option Keeper
  pub tx_counter_store_service : Option Keeper
  pub circuit_keeper : Option Keeper
  pub wasm_keeper : Option Keeper
  pub ibc_keeper : Option Keeper
  pub feegrant_keeper : Option Keeper
  pub extension_option_checker : Option Keeper
  pub tx_fee_checker : Option Keeper
  pub sig_gas_consumer : Option Keeper

-- A field that must not be nil.
abbrev pub required : {Keeper : Type 0} → Bytes → Option Keeper → Outcome Keeper
required message none = err (text message)
required message (some k) = ok k

module _ {Keeper : Type 0} (simulation_gas_limit : Keeper → Keeper)
    (get_gas_register : Option Keeper → Outcome Keeper) where
  -- `anteDecorators`, for fields that are not nil.
  abbrev pub decorators :
      HandlerOptions Keeper
      → (account bank sign wasm counter circuit register : Keeper) → List (Decorator Keeper)
  decorators options account bank sign wasm counter circuit register =
      set_up_context
      ∷ limit_simulation_gas (simulation_gas_limit wasm)
      ∷ count_tx counter
      ∷ gas_register register
      ∷ circuit_breaker circuit
      ∷ extension_options options.extension_option_checker
      ∷ validate_basic
      ∷ tx_timeout_height
      ∷ validate_memo account
      ∷ consume_gas_for_tx_size account
      ∷ deduct_fee account bank options.feegrant_keeper options.tx_fee_checker
      ∷ set_pub_key account
      ∷ validate_sig_count account
      ∷ sig_gas_consume account options.sig_gas_consumer
      ∷ sig_verification account sign
      ∷ increment_sequence account
      ∷ redundant_relay options.ibc_keeper
      ∷ []

  -- The checks, and then the list of the decorators.
  unfoldable pub new_ante_handler : HandlerOptions Keeper → Outcome (List (Decorator Keeper))
  new_ante_handler options = do
    account ← required (bytes "account keeper is required for ante builder") options.account_keeper
    bank ← required (bytes "bank keeper is required for ante builder") options.bank_keeper
    sign ←
        required (bytes "sign mode handler is required for ante builder") options.sign_mode_handler
    wasm ← required (bytes "wasm config is required for ante builder") options.wasm_config
    counter ←
        required (bytes "wasm store service is required for ante builder")
          options.tx_counter_store_service
    circuit ← required (bytes "circuit keeper is required for ante builder") options.circuit_keeper
    register ← get_gas_register options.wasm_keeper
    ok (decorators options account bank sign wasm counter circuit register)
