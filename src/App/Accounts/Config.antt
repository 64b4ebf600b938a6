-- ===== src/App/Accounts/Config.antt =====
-- The configuration's own accounts, by what the two maps say of them.
use bluechip_chain_official.Prelude.{
  ◌≡◌, refl, Bool, true, false, Option, none, some, List, [], ◌∷◌, ◌||◌, if◌then◌else◌,
}
use bluechip_chain_official.App.Accounts.{
  Account, Permission, minter, burner, staking, fee_collector, distribution, mint, bonded_pool,
  not_bonded_pool, gov, nft, transfer, ibc_fee, ica, wasm, fixedmint, code, module_acc_perms,
  block_acc_addrs, lookup, assign, get_macc_perms, blocked_addresses,
}
use bluechip_chain_official.App.Accounts.Lookup.{contains}

abbrev pub is_minter : Permission → Bool
is_minter minter = true
is_minter burner = false
is_minter staking = false

unfoldable pub has_minter : List Permission → Bool
has_minter [] = false
has_minter (p ∷ ps) = is_minter p || has_minter ps

unfoldable pub can_mint : Option (List Permission) → Bool
unfolding has_minter
can_mint none = false
can_mint (some ps) = has_minter ps

-- The SDK's mint module, the transfer module and fixedmint have the permission to mint, and no other
-- module account has it.
pub can_mint-get_macc_perms :
    (a : Account)
    → can_mint (lookup (get_macc_perms module_acc_perms) a)
      ≡ contains (mint ∷ transfer ∷ fixedmint ∷ []) a
unfolding can_mint lookup get_macc_perms assign module_acc_perms contains code
can_mint-get_macc_perms fee_collector = refl
can_mint-get_macc_perms distribution = refl
can_mint-get_macc_perms mint = refl
can_mint-get_macc_perms bonded_pool = refl
can_mint-get_macc_perms not_bonded_pool = refl
can_mint-get_macc_perms gov = refl
can_mint-get_macc_perms nft = refl
can_mint-get_macc_perms transfer = refl
can_mint-get_macc_perms ibc_fee = refl
can_mint-get_macc_perms ica = refl
can_mint-get_macc_perms wasm = refl
can_mint-get_macc_perms fixedmint = refl

-- Six module accounts are not blocked: gov, transfer, ibcfee, interchain accounts, wasm and fixedmint.
-- The others are.
pub blocked_addresses-config :
    (a : Account)
    → lookup (blocked_addresses block_acc_addrs module_acc_perms) a ≡ (
        if contains (gov ∷ transfer ∷ ibc_fee ∷ ica ∷ wasm ∷ fixedmint ∷ []) a
        then none
        else some true)
unfolding lookup blocked_addresses assign block_acc_addrs contains code
blocked_addresses-config fee_collector = refl
blocked_addresses-config distribution = refl
blocked_addresses-config mint = refl
blocked_addresses-config bonded_pool = refl
blocked_addresses-config not_bonded_pool = refl
blocked_addresses-config gov = refl
blocked_addresses-config nft = refl
blocked_addresses-config transfer = refl
blocked_addresses-config ibc_fee = refl
blocked_addresses-config ica = refl
blocked_addresses-config wasm = refl
blocked_addresses-config fixedmint = refl
