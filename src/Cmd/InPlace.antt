-- ===== src/Cmd/InPlace.antt =====
-- The arguments of the in-place testnet: `getCommandArgs` of cmd/bluechipchaind/cmd/testnet.go. The
-- options are what the flags gave, none where a value has another type; bech32 is a parameter.
pub mod Accounts
pub mod Init
use bluechip_chain_official.Prelude.{
  Option, none, some, Bool, Bytes, bytes, bytes_eq, List, [], ◌∷◌, ◌++◌, Outcome, ok, err, panic,
  stuck, text, wrap, ◌>>=◌, if◌then◌else◌,
}
use bluechip_chain_official.Cmd.MultiNode.{split_comma}

pub record AppOptions (Address Key : Type 0) : Type 0 where
  pub new_val_addr : Option Address
  pub user_pub_key : Option Key
  pub new_op_addr : Option Bytes
  pub trigger_testnet_upgrade : Option Bytes
  pub accounts_to_fund : Bytes
  pub home : Bytes

pub record ValArgs (Address Key : Type 0) : Type 0 where
  pub val_addr : Address
  pub val_pub_key : Key
  pub operator_address : Bytes
  pub upgrade_to_trigger : Bytes
  pub funded : List Bytes
  pub home_dir : Bytes

-- A type assertion that panics where it fails.
abbrev pub asserted : {A : Type 0} → Option A → Outcome A
asserted none = panic
asserted (some a) = ok a

-- The error of an address is wrapped.
abbrev pub wrapped : Outcome Bytes → Outcome Bytes
wrapped (ok a) = ok a
wrapped (err e) = err (wrap (bytes "invalid bech32 address format ") e)
wrapped panic = panic
wrapped stuck = stuck

module _ (acc_address_from_bech32 : Bytes → Outcome Bytes) where
  -- The loop over the accounts, with the addresses so far.
  unfoldable pub parse_accounts : List Bytes → List Bytes → Outcome (List Bytes)
  parse_accounts [] funded = ok funded
  parse_accounts (account ∷ accounts) funded =
      let passed = parse_accounts accounts funded in
      if bytes_eq account [] then passed else (do
        addr ← wrapped (acc_address_from_bech32 account)
        parse_accounts accounts (funded ++ addr ∷ []))

  unfoldable pub get_command_args :
      {Address Key : Type 0} → AppOptions Address Key → Outcome (ValArgs Address Key)
  unfolding parse_accounts
  get_command_args opts = do
    val_addr ← asserted opts.new_val_addr
    val_pub_key ← asserted opts.user_pub_key
    operator ← asserted opts.new_op_addr
    upgrade ← asserted opts.trigger_testnet_upgrade
    funded ← parse_accounts (split_comma opts.accounts_to_fund) []
    let args = ok (record {
      val_addr = val_addr;
      val_pub_key = val_pub_key;
      operator_address = operator;
      upgrade_to_trigger = upgrade;
      funded = funded;
      home_dir = opts.home;
    })
    if bytes_eq opts.home [] then err (text (bytes "invalid home dir")) else args
