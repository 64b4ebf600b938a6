-- ===== src/Cmd/InPlace/Init.antt =====
-- `initAppForTestnet` of cmd/bluechipchaind/cmd/testnet.go: the validators of a chain are replaced by one,
-- and accounts are funded. The keepers and the store are the SDK's, and so parameters; a process that
-- `tmos.Exit` ends comes back no more than one that panics.
pub mod Fund
pub mod Sample
use bluechip_chain_official.Prelude.{
  ℕ, Bool, false, Option, List, [], ◌∷◌, Bytes, bytes, Error, Outcome, ok, ◌>>=◌, must,
}
use bluechip_chain_official.MathInt.{ℤ}
use bluechip_chain_official.App.ZeroHeight.{each}
use bluechip_chain_official.Cmd.MultiNode.{minus}
use bluechip_chain_official.Cmd.InPlace.{AppOptions, ValArgs, asserted, get_command_args}

-- The fields that are set of a validator; it is bonded.
pub record NewValidator (Any LegacyDec : Type 0) : Type 0 where
  pub operator_address : Bytes
  pub consensus_pubkey : Any
  pub jailed : Bool
  pub tokens : ℕ
  pub delegator_shares : LegacyDec
  pub moniker : Bytes
  pub rate : LegacyDec
  pub max_rate : LegacyDec
  pub max_change_rate : LegacyDec
  pub min_self_delegation : ℕ

pub record SigningInfo : Type 0 where
  pub address : Bytes
  pub start_height : ℤ
  pub tombstoned : Bool

-- The context `S` holds the stores. A call whose error is not looked at gives the context after it together
-- with the error. An iterator is taken to visit the keys that it starts with: the code deletes while it is
-- open, on a store without a cache, of which the SDK promises nothing.
pub record Testnet (S Address Key Any LegacyDec Coin Coins : Type 0) : Type 1 where
  pub new_any_with_value : Key → Outcome Any
  pub legacy_must_new_dec_from_str : Bytes → Outcome LegacyDec
  pub string_to_bytes : Bytes → Outcome Bytes
  pub address_bytes : Address → Bytes
  pub cons_address_string : Bytes → Bytes
  -- The store of the module staking.
  pub validators_key : Bytes
  pub validator_queue_key : Bytes
  pub prefix_end_bytes : Bytes → Option Bytes
  pub iterator : Bytes → Option Bytes → S → List Bytes
  pub delete : Bytes → S → S
  -- The keepers.
  pub validators_power_store_iterator : S → Outcome (List Bytes)
  pub last_validators_iterator : S → Outcome (List Bytes)
  pub set_validator : NewValidator Any LegacyDec → S → Outcome (S × Option Error)
  pub set_validator_by_cons_addr : NewValidator Any LegacyDec → S → Outcome S
  pub set_validator_by_power_index : NewValidator Any LegacyDec → S → Outcome (S × Option Error)
  pub set_last_validator_power : Bytes → ℕ → S → Outcome (S × Option Error)
  pub after_validator_created : Bytes → S → Outcome S
  pub set_validator_historical_rewards : Bytes → ℕ → ℕ → S → Outcome (S × Option Error)
  pub set_validator_current_rewards : Bytes → ℕ → S → Outcome (S × Option Error)
  pub set_initial_accumulated_commission : Bytes → S → Outcome (S × Option Error)
  pub set_no_outstanding_rewards : Bytes → S → Outcome (S × Option Error)
  pub last_block_height : ℕ
  pub set_validator_signing_info : Bytes → SigningInfo → S → Outcome (S × Option Error)
  pub bond_denom : S → Outcome Bytes
  pub new_int64_coin : Bytes → ℕ → Outcome Coin
  pub new_coins : List Coin → Outcome Coins
  pub mint_coins : Bytes → Coins → S → Outcome S
  pub send_coins_from_module_to_account : Bytes → Bytes → Coins → S → Outcome S

-- `minttypes.ModuleName`
abbrev pub mint_module : Bytes
mint_module = bytes "mint"

-- `valVotingPower`
abbrev pub val_voting_power : ℕ
val_voting_power = 900000000000000

-- The amount of the coins that an account is funded with.
abbrev pub funding : ℕ
funding = 1000000000

-- A call whose error is not looked at.
abbrev pub unchecked : {S : Type 0} → Outcome (S × Option Error) → Outcome S
unchecked call = call >>= λ r. ok r.0

module _ {S Address Key Any LegacyDec Coin Coins : Type 0}
    (t : Testnet S Address Key Any LegacyDec Coin Coins) where
  unfoldable pub new_validator : Bytes → Any → Outcome (NewValidator Any LegacyDec)
  new_validator operator pubkey = do
    shares ← t.legacy_must_new_dec_from_str (bytes "10000000")
    rate ← t.legacy_must_new_dec_from_str (bytes "0.05")
    max_rate ← t.legacy_must_new_dec_from_str (bytes "0.1")
    max_change_rate ← t.legacy_must_new_dec_from_str (bytes "0.05")
    ok (record {
      operator_address = operator;
      consensus_pubkey = pubkey;
      jailed = false;
      tokens = val_voting_power;
      delegator_shares = shares;
      moniker = bytes "Testnet Validator";
      rate = rate;
      max_rate = max_rate;
      max_change_rate = max_change_rate;
      min_self_delegation = 1;
    })

  -- The loop over an iterator.
  unfoldable pub delete_all : List Bytes → S → S
  delete_all [] s = s
  delete_all (key ∷ keys) s = delete_all keys (t.delete key s)

  unfoldable pub delete_prefix : Bytes → S → S
  unfolding delete_all
  delete_prefix key s = delete_all (t.iterator key (t.prefix_end_bytes key) s) s

  -- The validators leave the power store, the last validators, the validators and the unbonding queue.
  unfoldable pub remove_validators : S → Outcome S
  unfolding delete_prefix delete_all
  remove_validators s = do
    powers ← must (t.validators_power_store_iterator s)
    let s1 = delete_all powers s
    last ← must (t.last_validators_iterator s1)
    let s2 = delete_all last s1
    let s3 = delete_prefix t.validators_key s2
    ok (delete_prefix t.validator_queue_key s3)

  unfoldable pub add_validator : NewValidator Any LegacyDec → Bytes → S → Outcome S
  add_validator v validator s = do
    s1 ← unchecked (t.set_validator v s)
    s2 ← must (t.set_validator_by_cons_addr v s1)
    s3 ← unchecked (t.set_validator_by_power_index v s2)
    s4 ← unchecked (t.set_last_validator_power validator 0 s3)
    must (t.after_validator_created validator s4)

  -- The records of the distribution, with no rewards, one reference and period 1.
  unfoldable pub init_distribution : Bytes → S → Outcome S
  init_distribution validator s = do
    s1 ← unchecked (t.set_validator_historical_rewards validator 0 1 s)
    s2 ← unchecked (t.set_validator_current_rewards validator 1 s1)
    s3 ← unchecked (t.set_initial_accumulated_commission validator s2)
    unchecked (t.set_no_outstanding_rewards validator s3)

  unfoldable pub init_slashing : Address → S → Outcome S
  init_slashing val_addr s = do
    let cons_addr = t.address_bytes val_addr
    unchecked (
        t.set_validator_signing_info cons_addr
          (record {
            address = t.cons_address_string cons_addr;
            start_height = minus t.last_block_height 1;
            tombstoned = false;
          })
          s)

  unfoldable pub fund : Coins → Bytes → S → Outcome S
  fund coins account s = do
    s' ← must (t.mint_coins mint_module coins s)
    must (t.send_coins_from_module_to_account mint_module account coins s')

  unfoldable pub fund_accounts : List Bytes → S → Outcome S
  unfolding fund
  fund_accounts accounts s = do
    denom ← must (t.bond_denom s)
    coin ← t.new_int64_coin denom funding
    coins ← t.new_coins (coin ∷ [])
    each (fund coins) accounts s

  unfoldable pub init_app_for_testnet : ValArgs Address Key → S → Outcome S
  unfolding new_validator remove_validators add_validator init_distribution init_slashing
      fund_accounts
  init_app_for_testnet args s = do
    pubkey ← must (t.new_any_with_value args.val_pub_key)
    v ← new_validator args.operator_address pubkey
    validator ← must (t.string_to_bytes v.operator_address)
    s1 ← remove_validators s
    s2 ← add_validator v validator s1
    s3 ← init_distribution validator s2
    s4 ← init_slashing args.val_addr s3
    fund_accounts args.funded s4

  -- `newTestnetApp`, of the application that `newApp` made, none where it is no `*app.App`.
  unfoldable pub new_testnet_app :
      (Bytes → Outcome Bytes) → AppOptions Address Key → Option S → Outcome S
  unfolding get_command_args init_app_for_testnet
  new_testnet_app acc_address_from_bech32 opts new_app = do
    s ← asserted new_app
    args ← must (get_command_args acc_address_from_bech32 opts)
    init_app_for_testnet args s
