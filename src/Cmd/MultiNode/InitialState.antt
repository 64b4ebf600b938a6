-- ===== src/Cmd/MultiNode/InitialState.antt =====
-- `initGenFiles` of cmd/bluechipchaind/cmd/testnet_multi_node.go: the genesis with the accounts and balances
-- of all validators, for every node. The JSON codec, the SDK's coins and the file system are parameters.
pub mod Supply
use bluechip_chain_official.Prelude.{
  ℕ, zero, suc, List, [], ◌∷◌, Bytes, bytes, bytes_eq, Outcome, ok, panic, ◌>>=◌, must,
  if◌then◌else◌,
}

-- The parts of the genesis of auth and of bank that are set; `more` stands for the others.
pub record AuthState (Packed : Type 0) : Type 0 where
  pub accounts : Packed
  pub more : ℕ

pub record Balance (Coins : Type 0) : Type 0 where
  pub address : Bytes
  pub coins : Coins

pub record BankState (Coins : Type 0) : Type 0 where
  pub balances : List (Balance Coins)
  pub supply : Coins
  pub more : ℕ

-- A genesis document; its validators are nil.
pub record GenesisDoc : Type 0 where
  pub chain_id : Bytes
  pub app_state : Bytes

-- The raw JSON of each module's genesis, empty where the map has none.
abbrev pub GenesisMap : Type 0
GenesisMap = Bytes → Bytes

abbrev pub assign_module : Bytes → Bytes → GenesisMap → GenesisMap
assign_module name raw states n = if bytes_eq n name then raw else states n

-- `authtypes.ModuleName` and `banktypes.ModuleName`
abbrev pub auth_name : Bytes
auth_name = bytes "auth"

abbrev pub bank_name : Bytes
bank_name = bytes "bank"

-- The SDK's part. A `Must…` of the codec is written with `must`, and the addition of coins may panic.
pub record Codec (Account Packed Coins Fs : Type 0) : Type 0 where
  pub default_genesis : GenesisMap
  pub unmarshal_auth : Bytes → Outcome (AuthState Packed)
  pub marshal_auth : AuthState Packed → Outcome Bytes
  pub unmarshal_bank : Bytes → Outcome (BankState Coins)
  pub marshal_bank : BankState Coins → Outcome Bytes
  pub pack_accounts : List Account → Outcome Packed
  pub sanitize_genesis_balances : List (Balance Coins) → List (Balance Coins)
  pub add_coins : Coins → Coins → Outcome Coins
  pub marshal_indent : GenesisMap → Outcome Bytes
  pub save_as : Bytes → GenesisDoc → Fs → Outcome Fs

module _ {Account Packed Coins Fs : Type 0} (c : Codec Account Packed Coins Fs) where
  -- The loop that adds the balances to the supply.
  unfoldable pub add_supply : List (Balance Coins) → Coins → Outcome Coins
  add_supply [] supply = ok supply
  add_supply (bal ∷ balances) supply = c.add_coins supply bal.coins >>= add_supply balances

  -- The loop over the validators, with the files from theirs on; an index behind the last one panics.
  unfoldable pub save_docs : GenesisDoc → ℕ → List Bytes → Fs → Outcome Fs
  save_docs doc zero files fs = ok fs
  save_docs doc (suc validators) [] fs = panic
  save_docs doc (suc validators) (file ∷ files) fs =
      c.save_as file doc fs >>= save_docs doc validators files

  unfoldable pub set_accounts : List Account → GenesisMap → Outcome GenesisMap
  set_accounts accounts states = do
    auth ← must (c.unmarshal_auth (states auth_name))
    packed ← c.pack_accounts accounts
    raw ← must (c.marshal_auth (record auth { accounts = packed }))
    ok (assign_module auth_name raw states)

  unfoldable pub set_balances : List (Balance Coins) → GenesisMap → Outcome GenesisMap
  unfolding add_supply
  set_balances gen_balances states = do
    bank ← must (c.unmarshal_bank (states bank_name))
    let balances = c.sanitize_genesis_balances gen_balances
    supply ← add_supply balances bank.supply
    raw ← must (c.marshal_bank (record bank { balances = balances; supply = supply }))
    ok (assign_module bank_name raw states)

  unfoldable pub init_gen_files :
      Bytes → List Account → List (Balance Coins) → List Bytes → ℕ → Fs → Outcome Fs
  unfolding set_accounts set_balances save_docs
  init_gen_files chain_id gen_accounts gen_balances gen_files validators fs = do
    with_accounts ← set_accounts gen_accounts c.default_genesis
    app_gen_state ← set_balances gen_balances with_accounts
    app_state ← c.marshal_indent app_gen_state
    save_docs (record { chain_id = chain_id; app_state = app_state }) validators gen_files fs
