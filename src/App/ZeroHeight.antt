-- ===== src/App/ZeroHeight.antt =====
-- `prepForZeroHeightGenesis` of app/export.go: the state is made ready for a chain that starts at height
-- zero. The keepers are the SDK's, and so a parameter.
pub mod Validators
pub mod Pool
pub mod Sample
use bluechip_chain_official.Prelude.{
  ℕ, Bool, true, false, not, ◌&&◌, ◌||◌, Option, List, [], ◌∷◌, map, Bytes, bytes_eq, Error,
  Outcome, ok, err, panic, stuck, ◌>>=◌, must, ltb, if◌then◌else◌, length,
}

-- The structs of the SDK, by the fields that the code reads or writes; `more` stands for the others.
pub record Validator : Type 0 where
  pub operator : Bytes
  pub unbonding_height : ℕ
  pub jailed : Bool
  pub more : ℕ

pub record Delegation : Type 0 where
  pub delegator_address : Bytes
  pub validator_address : Bytes

pub record Entry : Type 0 where
  pub creation_height : ℕ
  pub more : ℕ

-- `Redelegation` and `UnbondingDelegation`, by the key that they are stored under.
pub record Pending : Type 0 where
  pub key : Bytes
  pub entries : List Entry

pub record SigningInfo : Type 0 where
  pub start_height : ℕ
  pub more : ℕ

-- The context `S` holds the stores and the height. A call whose error is not looked at gives the context
-- after it together with the error; an iteration visits the list that is given when it starts.
pub record Keepers (S Coins : Type 0) : Type 0 where
  pub block_height : S → ℕ
  pub with_block_height : ℕ → S → S
  pub val_address_from_bech32 : Bytes → Outcome Bytes
  pub must_acc_address_from_bech32 : Bytes → Outcome Bytes
  pub val_address_string : Bytes → Bytes
  pub string_to_bytes : Bytes → Outcome Bytes
  pub assert_invariants : S → Outcome S
  pub validators : S → Outcome (List Validator)
  pub all_delegations : S → Outcome (List Delegation)
  pub withdraw_validator_commission : Bytes → S → Outcome (S × Option Error)
  pub withdraw_delegation_rewards : Bytes → Bytes → S → Outcome (S × Option Error)
  pub delete_all_validator_slash_events : S → Outcome S
  pub delete_all_validator_historical_rewards : S → Outcome S
  pub outstanding_rewards_coins : Bytes → S → Outcome Coins
  pub fee_pool : S → Outcome Coins
  pub add_coins : Coins → Coins → Coins
  pub set_fee_pool : Coins → S → Outcome S
  pub after_validator_created : Bytes → S → Outcome S
  pub before_delegation_created : Bytes → Bytes → S → Outcome S
  pub after_delegation_modified : Bytes → Bytes → S → Outcome S
  pub redelegations : S → Outcome (List Pending)
  pub set_redelegation : Pending → S → Outcome S
  pub unbonding_delegations : S → Outcome (List Pending)
  pub set_unbonding_delegation : Pending → S → Outcome S
  -- The addresses of the reverse iterator over the validators' keys, and its `Close`.
  pub validator_keys : S → List Bytes
  pub close_iterator : S → Outcome (Unit {0})
  pub get_validator : Bytes → S → Outcome Validator
  pub set_validator : Validator → S → Outcome S
  pub apply_validator_set_updates : S → Outcome S
  pub signing_infos : S → Outcome (List (Bytes × SigningInfo))
  pub set_signing_info : Bytes → SigningInfo → S → Outcome (S × Option Error)

-- A loop, or an iteration whose callback never stops it.
abbrev pub each : {A S : Type 0} → (A → S → Outcome S) → List A → S → Outcome S
each f [] s = ok s
each f (a ∷ rest) s = f a s >>= each f rest

-- A key of a `map[string]bool` that holds true for each of the list.
abbrev pub mem_bytes : Bytes → List Bytes → Bool
mem_bytes a [] = false
mem_bytes a (b ∷ bs) = bytes_eq a b || mem_bytes a bs

-- `validator.UnbondingHeight = 0`, and jailed where there is a list that does not allow it.
unfoldable pub reset_validator_fields : Bool → Bool → Validator → Validator
reset_validator_fields apply allowed v =
    let v' : Validator = record v { unbonding_height = 0 } in
    if apply && not allowed then record v' { jailed = true } else v'

unfoldable pub reset_entries : Pending → Pending
reset_entries p = record p {
  entries = map (λ (e : Entry). record e { creation_height = 0 }) p.entries;
}

module _ {S Coins : Type 0} (k : Keepers S Coins) where
  open k use {must_acc_address_from_bech32, val_address_from_bech32, string_to_bytes}

  -- The addresses of the list are checked; `log.Fatal` is the error.
  unfoldable pub check_allowed : List Bytes → Outcome (Unit {0})
  check_allowed [] = ok tt
  check_allowed (addr ∷ addrs) = do a ← val_address_from_bech32 addr; check_allowed addrs

  unfoldable pub withdraw_commission : Validator → S → Outcome S
  withdraw_commission val s = do
    bz ← must (string_to_bytes val.operator)
    (s', error) ← k.withdraw_validator_commission bz s
    ok s'

  unfoldable pub withdraw_rewards : Delegation → S → Outcome S
  withdraw_rewards del s = do
    val_addr ← must (val_address_from_bech32 del.validator_address)
    del_addr ← must_acc_address_from_bech32 del.delegator_address
    (s', error) ← k.withdraw_delegation_rewards del_addr val_addr s
    ok s'

  -- What is outstanding goes to the community pool, and the validator is created again.
  unfoldable pub reinitialize_validator : Validator → S → Outcome S
  reinitialize_validator val s = do
    bz ← must (string_to_bytes val.operator)
    scraps ← must (k.outstanding_rewards_coins bz s)
    pool ← must (k.fee_pool s)
    s' ← must (k.set_fee_pool (k.add_coins pool scraps) s)
    must (k.after_validator_created bz s')

  -- The error of the iteration itself is not looked at.
  unfoldable pub reinitialize_validators : Outcome (List Validator) → S → Outcome S
  reinitialize_validators (ok vals) s = each reinitialize_validator vals s
  reinitialize_validators (err e) s = ok s
  reinitialize_validators panic s = panic
  reinitialize_validators stuck s = stuck

  unfoldable pub reinitialize_delegation : Delegation → S → Outcome S
  reinitialize_delegation del s = do
    val_addr ← must (val_address_from_bech32 del.validator_address)
    del_addr ← must_acc_address_from_bech32 del.delegator_address
    s' ← must (k.before_delegation_created del_addr val_addr s)
    must (k.after_delegation_modified del_addr val_addr s')

  unfoldable pub reset_redelegation : Pending → S → Outcome S
  unfolding reset_entries
  reset_redelegation red s = must (k.set_redelegation (reset_entries red) s)

  unfoldable pub reset_unbonding_delegation : Pending → S → Outcome S
  unfolding reset_entries
  reset_unbonding_delegation ubd s = must (k.set_unbonding_delegation (reset_entries ubd) s)

  unfoldable pub reset_validator : List Bytes → Bytes → S → Outcome S
  unfolding reset_validator_fields
  reset_validator allowed addr s = do
    v ← must (k.get_validator addr s)
    must (
        k.set_validator
          (reset_validator_fields (ltb 0 (length allowed))
            (mem_bytes (k.val_address_string addr) allowed) v)
          s)

  unfoldable pub reset_signing_info : Bytes × SigningInfo → S → Outcome S
  reset_signing_info (addr, info) s = do
    (s', error) ← k.set_signing_info addr (record info { start_height = 0 }) s
    ok s'

  -- The fee distribution state.
  unfoldable pub prepare_distribution : S → Outcome S
  unfolding withdraw_commission withdraw_rewards reinitialize_validators reinitialize_delegation
  prepare_distribution s = do
    vals ← must (k.validators s)
    s1 ← each withdraw_commission vals s
    dels ← must (k.all_delegations s1)
    s2 ← each withdraw_rewards dels s1
    s3 ← k.delete_all_validator_slash_events s2
    s4 ← k.delete_all_validator_historical_rewards s3
    let s5 = k.with_block_height 0 s4
    s6 ← reinitialize_validators (k.validators s5) s5
    s7 ← each reinitialize_delegation dels s6
    ok (k.with_block_height (k.block_height s4) s7)

  -- The staking state, up to the loop over the validators.
  unfoldable pub prepare_staking : List Bytes → S → Outcome S
  unfolding reset_redelegation reset_unbonding_delegation reset_validator
  prepare_staking allowed s = do
    reds ← must (k.redelegations s)
    s1 ← each reset_redelegation reds s
    ubds ← must (k.unbonding_delegations s1)
    s2 ← each reset_unbonding_delegation ubds s1
    each (reset_validator allowed) (k.validator_keys s2) s2

  -- The validator set and the slashing state; `log.Fatal` is the error.
  unfoldable pub prepare_slashing : S → Outcome S
  unfolding reset_signing_info
  prepare_slashing s = do
    s1 ← k.apply_validator_set_updates s
    infos ← k.signing_infos s1
    each reset_signing_info infos s1

  -- Where the iterator cannot be closed, the function logs it and returns.
  unfoldable pub closed : Outcome (Unit {0}) → S → Outcome S
  unfolding prepare_slashing
  closed (ok u) s = prepare_slashing s
  closed (err e) s = ok s
  closed panic s = panic
  closed stuck s = stuck

  unfoldable pub prep_for_zero_height_genesis : List Bytes → S → Outcome S
  unfolding check_allowed prepare_distribution prepare_staking closed
  prep_for_zero_height_genesis allowed s = do
    u ← check_allowed allowed
    s1 ← k.assert_invariants s
    s2 ← prepare_distribution s1
    s3 ← prepare_staking allowed s2
    closed (k.close_iterator s3) s3
