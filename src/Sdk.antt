-- ===== src/Sdk.antt =====
-- What the module takes from the Cosmos SDK, which is not code of the repository: coins, the bank
-- keeper of x/fixedmint/types/expected_keepers.go, the key-value store, the codec and addresses.
-- `Sdk` is what the code calls, and `SdkLaws` what it relies on.
pub mod Ledger
pub mod Sample
use bluechip_chain_official.Prelude.{
  ℕ, suc, ◌+◌, ◌≤◌, ◌≡◌, Bool, true, false, Option, some, Bytes, bytes_eq, List, [], ◌∷◌, Outcome,
  ok, panic, if◌then◌else◌, ◌<◌, ◌^◌,
}
use bluechip_chain_official.MathInt.{pos, negsuc, MathInt, MathIntLaws}
use bluechip_chain_official.Fixedmint.Params.{Params}
use bluechip_chain_official.Fixedmint.Params.Codec.{marshal, unmarshal}

pub record Sdk (n : MathInt) : Type 1 where
  -- `sdk.Coin` and `sdk.Coins`; the constructors panic on what is not valid.
  pub Coin : Type 0
  pub Coins : Type 0
  pub new_coin : Bytes → n.Int → Outcome Coin
  pub new_coins : List Coin → Outcome Coins
  pub coins_is_zero : Coins → Bool
  -- The state of x/bank, and the three methods of the interface `BankKeeper`.
  pub Bank : Type 0
  pub spendable_coins : Bank → Bytes → Coins
  pub mint_coins : Bytes → Coins → Bank → Outcome (Unit {0}) × Bank
  pub send_coins_from_module_to_module : Bytes → Bytes → Coins → Bank → Outcome (Unit {0}) × Bank
  -- The module's store.
  pub Kv : Type 0
  pub get : Kv → Bytes → Option Bytes
  pub set : Kv → Bytes → Bytes → Kv
  -- `codec.BinaryCodec`; `cdc_unmarshal` is given the message before the call.
  pub cdc_marshal : Params n.Int → Outcome Bytes
  pub cdc_unmarshal : Bytes → Params n.Int → Outcome (Params n.Int)
  pub module_address : Bytes → Bytes
  pub acc_address_from_bech32 : Bytes → Outcome Bytes

-- A `math.Int` has 256 bits at most, beside its sign.
unfoldable pub int_limit : ℕ
int_limit = 2 ^ 256

pub record SdkLaws (n : MathInt) (laws : MathIntLaws n) (sdk : Sdk n) : Type 0 where
  -- `sdk.ValidateDenom`
  pub valid_denom : Bytes → Bool
  pub coin : Bytes → ℕ → sdk.Coin
  pub new_coin_lem :
      (d : Bytes) (x : n.Int) (k : ℕ)
      → valid_denom d ≡ true
      → laws.value x ≡ some (pos k)
      → sdk.new_coin d x ≡ ok (coin d k)
  pub new_coin_bad_denom :
      (d : Bytes) (x : n.Int) → valid_denom d ≡ false → sdk.new_coin d x ≡ panic
  pub new_coin_negative :
      (d : Bytes) (x : n.Int) (k : ℕ) → laws.value x ≡ some (negsuc k) → sdk.new_coin d x ≡ panic
  pub single : Bytes → ℕ → sdk.Coins
  pub new_coins_lem :
      (d : Bytes) (k : ℕ) → sdk.new_coins (coin d (suc k) ∷ []) ≡ ok (single d (suc k))
  pub amount_of : sdk.Coins → Bytes → ℕ
  pub amount_of-single :
      (d e : Bytes) (k : ℕ) → amount_of (single d k) e ≡ (if bytes_eq d e then k else 0)
  -- The balance of an address, and the supply, in a denom.
  pub balance : sdk.Bank → Bytes → Bytes → ℕ
  pub supply : sdk.Bank → Bytes → ℕ
  -- A module account has no locked coins: what it can spend is its balance.
  pub spendable_zero :
      (b : sdk.Bank) (m : Bytes)
      → ((d : Bytes) → balance b (sdk.module_address m) d ≡ 0)
      → sdk.coins_is_zero (sdk.spendable_coins b (sdk.module_address m)) ≡ true
  pub spendable_zero_only :
      (b : sdk.Bank) (m d : Bytes)
      → sdk.coins_is_zero (sdk.spendable_coins b (sdk.module_address m)) ≡ true
      → balance b (sdk.module_address m) d ≡ 0
  -- Coins that were minted stand on the module's account, and in the supply.
  pub mint_balance :
      (m : Bytes) (c : sdk.Coins) (b b' : sdk.Bank) (a d : Bytes)
      → sdk.mint_coins m c b ≡ (ok tt, b')
      → balance b' a d
        ≡ balance b a d + (if bytes_eq a (sdk.module_address m) then amount_of c d else 0)
  pub mint_supply :
      (m : Bytes) (c : sdk.Coins) (b b' : sdk.Bank) (d : Bytes)
      → sdk.mint_coins m c b ≡ (ok tt, b')
      → supply b' d ≡ supply b d + amount_of c d
  -- Coins that were sent have moved from the one account to the other.
  pub send_balance :
      (m r : Bytes) (c : sdk.Coins) (b b' : sdk.Bank) (a d : Bytes)
      → sdk.send_coins_from_module_to_module m r c b ≡ (ok tt, b')
      → balance b' a d + (if bytes_eq a (sdk.module_address m) then amount_of c d else 0)
        ≡ balance b a d + (if bytes_eq a (sdk.module_address r) then amount_of c d else 0)
  pub send_supply :
      (m r : Bytes) (c : sdk.Coins) (b b' : sdk.Bank) (d : Bytes)
      → sdk.send_coins_from_module_to_module m r c b ≡ (ok tt, b')
      → supply b' d ≡ supply b d
  -- A module with the permission can mint, and one that has the coins can send them to a known one, where
  -- what is added to in the bank stays within the bounds of an integer; beyond them the addition panics.
  pub can_mint : Bytes → Bool
  pub is_module : Bytes → Bool
  pub mint_succeeds :
      (m : Bytes) (c : sdk.Coins) (b : sdk.Bank)
      → can_mint m ≡ true
      → ((d : Bytes) → 0 < amount_of c d → supply b d + amount_of c d < int_limit)
      → ((d : Bytes)
          → 0 < amount_of c d
          → balance b (sdk.module_address m) d + amount_of c d < int_limit)
      → (b' : sdk.Bank) × (sdk.mint_coins m c b ≡ (ok tt, b'))
  pub send_succeeds :
      (m r : Bytes) (c : sdk.Coins) (b : sdk.Bank)
      → is_module r ≡ true
      → ((d : Bytes) → amount_of c d ≤ balance b (sdk.module_address m) d)
      → ((d : Bytes)
          → 0 < amount_of c d
          → balance b (sdk.module_address r) d + amount_of c d < int_limit)
      → (b' : sdk.Bank) × (sdk.send_coins_from_module_to_module m r c b ≡ (ok tt, b'))
  -- The addresses of two modules differ.
  pub module_address_ne :
      (m r : Bytes)
      → bytes_eq m r ≡ false
      → bytes_eq (sdk.module_address m) (sdk.module_address r) ≡ false
  pub get-set : (kv : sdk.Kv) (k v : Bytes) → sdk.get (sdk.set kv k v) k ≡ some v
  -- The codec calls the generated methods.
  pub cdc_marshal_lem : (p : Params n.Int) → sdk.cdc_marshal p ≡ marshal n p
  pub cdc_unmarshal_lem :
      (src : Bytes) (p : Params n.Int) → sdk.cdc_unmarshal src p ≡ unmarshal n src p
