-- ===== src/App/Accounts.antt =====
-- Module accounts: app/app_config.go, and `GetMaccPerms` and `BlockedAddresses` of app/app.go.
pub mod Lookup
pub mod Config
use bluechip_chain_official.Prelude.{
  ℕ, Bool, true, false, Option, none, some, List, [], ◌∷◌, ltb, ◌==◌, if◌then◌else◌, length, ◌||◌,
}

-- The modules that have an account, by the constants of their packages, which are different strings.
pub data Account : Type 0 where
  fee_collector distribution mint bonded_pool not_bonded_pool gov nft transfer ibc_fee ica wasm
        fixedmint :
      Account

pub data Permission : Type 0 where
  minter burner staking : Permission

unfoldable pub code : Account → ℕ
code fee_collector = 0
code distribution = 1
code mint = 2
code bonded_pool = 3
code not_bonded_pool = 4
code gov = 5
code nft = 6
code transfer = 7
code ibc_fee = 8
code ica = 9
code wasm = 10
code fixedmint = 11

abbrev pub same : Account → Account → Bool
same a b = code a == code b

unfoldable pub module_acc_perms : List (Account × List Permission)
module_acc_perms =
    (fee_collector, [])
    ∷ (distribution, [])
    ∷ (mint, minter ∷ [])
    ∷ (bonded_pool, burner ∷ staking ∷ [])
    ∷ (not_bonded_pool, burner ∷ staking ∷ [])
    ∷ (gov, burner ∷ [])
    ∷ (nft, [])
    ∷ (transfer, minter ∷ burner ∷ [])
    ∷ (ibc_fee, [])
    ∷ (ica, [])
    ∷ (wasm, burner ∷ [])
    ∷ (fixedmint, minter ∷ [])
    ∷ []

unfoldable pub block_acc_addrs : List Account
block_acc_addrs = fee_collector ∷ distribution ∷ mint ∷ bonded_pool ∷ not_bonded_pool ∷ nft ∷ []

-- A Go map: an assignment replaces what the key had.
unfoldable pub lookup {ℓ} : {V : Type ℓ} → List (Account × V) → Account → Option V
lookup [] a = none
lookup ((k, v) ∷ m) a = if same k a then some v else lookup m a

unfoldable pub assign {ℓ} : {V : Type ℓ} → Account → V → List (Account × V) → List (Account × V)
assign a v [] = (a, v) ∷ []
assign a v ((k, w) ∷ m) = let rest = assign a v m in if same k a then (k, v) ∷ m else (k, w) ∷ rest

-- The loop of `GetMaccPerms`, over the entries that are left and the map so far.
unfoldable pub dup_perms :
    List (Account × List Permission)
    → List (Account × List Permission)
    → List (Account × List Permission)
dup_perms [] dup = dup
dup_perms ((a, perms) ∷ entries) dup = dup_perms entries (assign a perms dup)

unfoldable pub get_macc_perms : List (Account × List Permission) → List (Account × List Permission)
unfolding dup_perms
get_macc_perms entries = dup_perms entries []

unfoldable pub block_all : List Account → List (Account × Bool) → List (Account × Bool)
block_all [] result = result
block_all (a ∷ rest) result = block_all rest (assign a true result)

unfoldable pub keys {ℓ} : {V : Type ℓ} → List (Account × V) → List Account
keys [] = []
keys ((k, v) ∷ m) = k ∷ keys m

-- `BlockedAddresses`: with an empty list of addresses every module account is blocked.
unfoldable pub blocked_addresses :
    List Account → List (Account × List Permission) → List (Account × Bool)
unfolding block_all get_macc_perms keys
blocked_addresses addrs entries =
    if ltb 0 (length addrs)
    then block_all addrs []
    else block_all (keys (get_macc_perms entries)) []
