-- ===== src/Fixedmint/Keeper.antt =====
-- The keeper: x/fixedmint/keeper, with the message and the query of x/fixedmint/types.
pub mod Calls
pub mod Frame
pub mod Store
pub mod Reward
pub mod Authority
use bluechip_chain_official.Prelude.{
  ℕ, Bool, true, false, not, ◌||◌, Option, none, some, Bytes, bytes, bytes_eq, List, [], ◌∷◌,
  Outcome, ok, err, panic, stuck, Error, invalid_signer, invalid_request, invalid_authority, must,
  if◌then◌else◌,
}
use bluechip_chain_official.MathInt.{MathInt}
use bluechip_chain_official.Sdk.{Sdk}
use bluechip_chain_official.Fixedmint.Params.{Params, zero_params, validate}

abbrev pub module_name : Bytes
module_name = bytes "fixedmint"

-- `authtypes.FeeCollectorName` of the SDK.
abbrev pub fee_collector_name : Bytes
fee_collector_name = bytes "fee_collector"

abbrev pub params_key : Bytes
params_key = bytes "p_fixedmint"

pub record MsgUpdateParams (Int : Type 0) : Type 0 where
  pub authority : Bytes
  pub params : Params Int

-- The first test of `ValidateBasic`, whose error is wrapped, and what follows it.
abbrev pub after_address : Outcome Bytes → Outcome (Unit {0}) → Outcome (Unit {0})
after_address (ok a) k = k
after_address (err e) k = err invalid_authority
after_address panic k = panic
after_address stuck k = stuck

module _ (n : MathInt) (sdk : Sdk n) where
  open n use {Int}
  open sdk use {
    new_coin, new_coins, coins_is_zero, spendable_coins, mint_coins,
    send_coins_from_module_to_module, get, set, cdc_marshal, cdc_unmarshal, module_address,
    acc_address_from_bech32,
  }

  -- The state that a call works on: the module's store and that of x/bank.
  pub record Ctx : Type 0 where
    pub kv : sdk.Kv
    pub bank : sdk.Bank

  -- A call: what it ends in, and the state then. A state is kept on an error and on a panic too.
  abbrev pub Action : Type 0 → Type 0
  Action A = Ctx → Outcome A × Ctx

  abbrev pub go_on : {A B : Type 0} → (A → Action B) → Outcome A × Ctx → Outcome B × Ctx
  go_on f (ok a, c) = f a c
  go_on f (err e, c) = (err e, c)
  go_on f (panic, c) = (panic, c)
  go_on f (stuck, c) = (stuck, c)

  infixl 5 ◌>>=◌ ◌>>◌
  abbrev pub ◌>>=◌ : {A B : Type 0} → Action A → (A → Action B) → Action B
  ◌>>=◌ m f c = go_on f (m c)

  abbrev pub ◌>>◌ : {B : Type 0} → Action (Unit {0}) → Action B → Action B
  m >> k = m >>= λ _. k

  abbrev pub lift : {A : Type 0} → Outcome A → Action A
  lift r c = (r, c)

  abbrev pub on_bank : (sdk.Bank → Outcome (Unit {0}) × sdk.Bank) → Action (Unit {0})
  on_bank f c = ((f c.bank).0, record c { bank = (f c.bank).1 })

  -- `GetParams`: the zero value where nothing is stored; a value that cannot be read is a panic.
  unfoldable pub get_params : Ctx → Outcome (Params Int)
  get_params c = elim (get c.kv params_key) [
    | none ↦ ok (zero_params n)
    | some bz ↦ must (cdc_unmarshal bz (zero_params n))
  ]

  -- `SetParams`
  unfoldable pub set_params : Params Int → Action (Unit {0})
  set_params p c = elim (cdc_marshal p) [
    | ok bz ↦ (ok tt, record c { kv = set c.kv params_key bz })
    | err e ↦ (err e, c)
    | panic ↦ (panic, c)
    | stuck ↦ (stuck, c)
  ]

  -- `!params.MintEnabled || params.MintAmount.IsZero()`, which does not look at the amount where
  -- minting is disabled.
  unfoldable pub skips_mint : Params Int → Outcome Bool
  skips_mint p = if not p.mint_enabled then ok true else n.is_zero p.mint_amount

  -- The calls of `MintFixedBlockReward` behind its first test.
  unfoldable pub mint_and_send : Params Int → Action (Unit {0})
  mint_and_send p = do
    coin ← lift (new_coin p.mint_denom p.mint_amount)
    amount ← lift (new_coins (coin ∷ []))
    on_bank (mint_coins module_name amount)
    on_bank (send_coins_from_module_to_module module_name fee_collector_name amount)

  unfoldable pub mint_fixed_block_reward : Action (Unit {0})
  mint_fixed_block_reward c =
      (do
        params ← lift (get_params c)
        skips ← lift (skips_mint params)
        let pays = mint_and_send params
        if skips then lift (ok tt) else pays)
        c

  -- `UpdateParams` of the message server, for a keeper with this authority.
  unfoldable pub update_params : Bytes → MsgUpdateParams Int → Action (Unit {0})
  update_params authority req =
      if not (bytes_eq authority req.authority)
      then lift (err (invalid_signer authority req.authority))
      else set_params req.params

  -- `(*MsgUpdateParams).ValidateBasic`
  unfoldable pub validate_basic : MsgUpdateParams Int → Outcome (Unit {0})
  validate_basic m = after_address (acc_address_from_bech32 m.authority) (validate n m.params)

  -- The query `Params`; the request is a pointer.
  unfoldable pub query_params : Option (Unit {0}) → Ctx → Outcome (Params Int)
  query_params none c = err invalid_request
  query_params (some req) c = get_params c

  -- `ModuleAccountInvariant`: whether it is broken.
  unfoldable pub module_account_invariant : Ctx → Bool
  module_account_invariant c =
      not (coins_is_zero (spendable_coins c.bank (module_address module_name)))
