-- ===== src/Tests/Data.antt =====
-- The inputs of the tests: the samples of the parameters of the model, and states over them.
use bluechip_chain_official.Prelude.{
  ◌∷◌, ◌≢◌, bytes_ne, ◌⊎◌, inl, ◌≡◌, refl, arith, true, false, some, bytes, [], ok, ℕ, ◌≤◌, Bytes,
}
use bluechip_chain_official.MathInt.{pos}
use bluechip_chain_official.MathInt.Sample.{sample, sample_laws}
use bluechip_chain_official.MathInt.Sample
use bluechip_chain_official.Sdk.{Sdk, SdkLaws, int_limit}
use bluechip_chain_official.Sdk.Ledger.{contains}
use bluechip_chain_official.Sdk.Sample.{ledger}
use bluechip_chain_official.Sdk.Sample.Laws.{ledger_laws}
use bluechip_chain_official.Wire.Leb.{groups}
use bluechip_chain_official.Fixedmint.Params.{Params}
use bluechip_chain_official.Fixedmint.Params.Codec.Encode.{FitsInt}
use bluechip_chain_official.Fixedmint.Keeper.{
  Ctx, MsgUpdateParams, module_name, fee_collector_name, set_params, get_params,
}
use bluechip_chain_official.Fixedmint.Keeper.Reward.{Pays, HasRoom}
use bluechip_chain_official.Fixedmint.Keeper.Store.{get_params-set_params}

abbrev pub sdk : Sdk sample
sdk = ledger sample sample_laws

abbrev pub sdk_laws : SdkLaws sample sample_laws sdk
sdk_laws = ledger_laws sample sample_laws

unfoldable pub five_coins : Params sample.Int
unfolding sample
five_coins = record {
  mint_denom = bytes "ubluechip";
  mint_amount = some (pos 5);
  mint_enabled = true;
}

pub five_coins-FitsInt : FitsInt sample sample_laws five_coins
unfolding five_coins groups sample_laws Sample.encode
five_coins-FitsInt = omega arith

unfoldable pub start : Ctx sample sdk
unfolding ledger
start = record { kv = []; bank = record { entries = λ a d. 0; known = []; total = λ d. 0 } }

-- The state in which `five_coins` are the parameters.
abbrev pub paying : Ctx sample sdk
paying = (set_params sample sdk five_coins start).1

pub five_coins-amount : sample_laws.value five_coins.mint_amount ≡ some (pos 5)
unfolding five_coins sample_laws
five_coins-amount = refl

pub paying-params : get_params sample sdk paying ≡ ok five_coins
paying-params =
    (get_params-set_params sample sample_laws sdk sdk_laws five_coins (pos 5) start
      five_coins-amount five_coins-FitsInt).1

pub five_coins-Pays : Pays sample sample_laws sdk sdk_laws five_coins 4
unfolding five_coins sample_laws ledger_laws
five_coins-Pays = record { enabled = refl; amount = refl; denom = refl }

pub may_mint : sdk_laws.can_mint module_name ≡ true
unfolding ledger_laws
may_mint = refl

pub has_collector : sdk_laws.is_module fee_collector_name ≡ true
unfolding ledger_laws
has_collector = refl

-- Parameters that are off, and some with a denom that is no denom of the SDK.
unfoldable pub disabled : Params sample.Int
unfolding five_coins
disabled = record five_coins { mint_enabled = false }

pub disabled-FitsInt : FitsInt sample sample_laws disabled
unfolding disabled five_coins groups sample_laws Sample.encode
disabled-FitsInt = omega arith

unfoldable pub short_denom : Params sample.Int
unfolding five_coins
short_denom = record five_coins { mint_denom = bytes "x" }

pub short_denom-FitsInt : FitsInt sample sample_laws short_denom
unfolding short_denom five_coins groups sample_laws Sample.encode
short_denom-FitsInt = omega arith

abbrev pub request : MsgUpdateParams sample.Int
request = record { authority = bytes "gov"; params = five_coins }

pub disabled-amount : sample_laws.value disabled.mint_amount ≡ some (pos 5)
unfolding disabled five_coins sample_laws
disabled-amount = refl

pub short_denom-amount : sample_laws.value short_denom.mint_amount ≡ some (pos 5)
unfolding short_denom five_coins sample_laws
short_denom-amount = refl

pub disabled_or_zero :
    (disabled.mint_enabled ≡ false) ⊎ (sample_laws.value disabled.mint_amount ≡ some (pos 0))
unfolding disabled
disabled_or_zero = inl refl

pub short_denom-enabled : short_denom.mint_enabled ≡ true
unfolding short_denom five_coins
short_denom-enabled = refl

pub short_denom-invalid : sdk_laws.valid_denom short_denom.mint_denom ≡ false
unfolding short_denom ledger_laws
short_denom-invalid = refl

abbrev pub off : Ctx sample sdk
off = (set_params sample sdk disabled start).1

pub off-params : get_params sample sdk off ≡ ok disabled
off-params =
    (get_params-set_params sample sample_laws sdk sdk_laws disabled (pos 5) start disabled-amount
      disabled-FitsInt).1

abbrev pub halting : Ctx sample sdk
halting = (set_params sample sdk short_denom start).1

pub halting-params : get_params sample sdk halting ≡ ok short_denom
halting-params =
    (get_params-set_params sample sample_laws sdk sdk_laws short_denom (pos 5) start
      short_denom-amount short_denom-FitsInt).1

pub gov-ne-mallory : bytes "mallory" ≢ request.authority
gov-ne-mallory = bytes_ne (bytes "mallory") (bytes "gov") refl

abbrev pub bad_request : MsgUpdateParams sample.Int
bad_request = record { authority = bytes "gov"; params = short_denom }

pub short_denom-ne-nil : short_denom.mint_denom ≢ []
unfolding short_denom
short_denom-ne-nil e = cc

pub any_address : sdk.acc_address_from_bech32 (bytes "gov") ≡ ok (bytes "gov")
unfolding ledger
any_address = refl

-- A state in which somebody has sent a coin to the module's account.
unfoldable pub sent_to : Ctx sample sdk
unfolding ledger
sent_to = record {
  kv = [];
  bank = record { entries = λ a d. 1; known = bytes "ubluechip" ∷ []; total = λ d. 1 };
}

pub sent_to-residue :
    sdk_laws.balance sent_to.bank (sdk.module_address module_name) (bytes "ubluechip") ≢ 0
unfolding sent_to ledger_laws ledger contains
sent_to-residue e = cc

-- Parameters whose amount is nil.
unfoldable pub no_amount : Params sample.Int
unfolding five_coins
no_amount = record five_coins { mint_amount = sample.nil }

pub no_amount-nil : no_amount.mint_amount ≡ sample.nil
unfolding no_amount
no_amount-nil = refl

pub no_amount-FitsInt : FitsInt sample sample_laws no_amount
unfolding no_amount five_coins groups sample sample_laws Sample.encode
no_amount-FitsInt = omega arith

paying-bank : paying.bank ≡ start.bank
paying-bank =
    (get_params-set_params sample sample_laws sdk sdk_laws five_coins (pos 5) start
      five_coins-amount five_coins-FitsInt).2

start-nothing :
    (a d : Bytes) → (sdk_laws.balance start.bank a d ≡ 0) × (sdk_laws.supply start.bank d ≡ 0)
unfolding ledger_laws start contains
start-nothing a d = (refl, refl)

pub paying-HasRoom :
    (total : ℕ) → total ≤ 15 → HasRoom sample sample_laws sdk sdk_laws five_coins 5 total paying
unfolding int_limit
paying-HasRoom total small =
    let denom = five_coins.mint_denom in
    let collector = start-nothing (sdk.module_address fee_collector_name) denom in
    let holder = start-nothing (sdk.module_address module_name) denom in
    record {
      in_supply = rw paying-bank (omega (arith, holder.1));
      in_collector = rw paying-bank (omega (arith, collector.0));
      in_module = rw paying-bank (omega (arith, holder.0));
    }
