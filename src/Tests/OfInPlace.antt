-- ===== src/Tests/OfInPlace.antt =====
-- An in-place testnet that funds an account twice.
use bluechip_chain_official.Prelude.{◌+◌, ◌*◌, ◌≡◌, refl, arith, [], ◌∷◌, List, Bytes, bytes, ok}
use bluechip_chain_official.Sdk.{int_limit}
use bluechip_chain_official.Cmd.InPlace.Init.{fund_accounts, funding}
use bluechip_chain_official.Cmd.InPlace.Init.Fund.{count, fund_accounts_lem}
use bluechip_chain_official.Cmd.InPlace.Init.Sample.{World, testnet, testnet_laws}

abbrev before : World
before = record { total = λ d. 9; bank = λ a d. 3 }

abbrev funded : List Bytes
funded = bytes "alice" ∷ bytes "bob" ∷ bytes "alice" ∷ []

fund_accounts_lem_example :
    (s' : World) × (fund_accounts testnet funded before ≡ ok s')
    × ((a : Bytes) → s'.bank a (bytes "stake") ≡ 3 + funding * count a funded)
unfolding testnet_laws int_limit
fund_accounts_lem_example =
    fund_accounts_lem testnet testnet_laws (bytes "stake") funded before refl refl
      (refl, (refl, (refl, tt))) (omega arith, λ a. omega arith)
