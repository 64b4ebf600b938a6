-- ===== src/Tests/OfApp.antt =====
-- The application's configuration and checks at concrete inputs.
use bluechip_chain_official.Prelude.{
  ℕ, ◌≡◌, ◌↔◌, ◌⊎◌, true, false, Option, none, some, Bytes, [], ◌∷◌, List, Outcome, ok, err, text,
  ltb, ◌==◌, length, if◌then◌else◌,
}
use bluechip_chain_official.MathInt.{pos}
use bluechip_chain_official.App.Accounts.{
  gov, module_acc_perms, lookup, get_macc_perms, keys, blocked_addresses,
}
use bluechip_chain_official.App.Accounts.Lookup.{contains, lookup-blocked_addresses}
use bluechip_chain_official.App.Ante.{HandlerOptions}
use bluechip_chain_official.App.GenesisAccount.{GenesisAccount, ge_ℤ, validate, validate_iff}

lookup-blocked_addresses_example : lookup (blocked_addresses (gov ∷ []) module_acc_perms) gov ≡ (
    if contains
      (if ltb 0 (length (gov ∷ [])) then gov ∷ [] else keys (get_macc_perms module_acc_perms))
      gov
    then some true
    else none)
lookup-blocked_addresses_example = lookup-blocked_addresses (gov ∷ []) module_acc_perms gov

-- Keepers are numbers here.
abbrev options : HandlerOptions ℕ
options = record {
  account_keeper = some 1;
  bank_keeper = some 2;
  sign_mode_handler = some 3;
  wasm_config = some 4;
  tx_counter_store_service = some 5;
  circuit_keeper = some 6;
  wasm_keeper = some 7;
  ibc_keeper = none;
  feegrant_keeper = none;
  extension_option_checker = none;
  tx_fee_checker = none;
  sig_gas_consumer = none;
}

abbrev register_of : Option ℕ → Outcome ℕ
register_of none = err (text [])
register_of (some k) = ok k

-- Coins and base accounts are numbers here.
abbrev vesting : GenesisAccount ℕ ℕ
vesting = record {
  base_account = 1;
  original_vesting = 5;
  delegated_free = 0;
  delegated_vesting = 0;
  start_time = pos 10;
  end_time = pos 20;
  module_name = [];
  module_permissions = [];
}

abbrev accept : ℕ → Outcome (Unit {0})
accept k = ok tt

abbrev accept_module : ℕ → Bytes → List Bytes → Outcome (Unit {0})
accept_module k name perms = ok tt

validate_iff_example : (validate (λ k. k == 0) accept_module accept vesting ≡ ok tt) ↔ (
    (((5 == 0) ≡ true) ⊎ (ge_ℤ (pos 10) (pos 20) ≡ false))
    × ((vesting.module_name ≡ []) ⊎ (accept_module 1 [] [] ≡ ok tt))
    × (accept 1 ≡ ok tt))
validate_iff_example = validate_iff (λ k. k == 0) accept_module accept vesting
