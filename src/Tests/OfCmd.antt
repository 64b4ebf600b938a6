-- ===== src/Tests/OfCmd.antt =====
-- The testnet's arguments at concrete inputs.
use bluechip_chain_official.Prelude.{
  Outcome, ◌↔◌, ◌<◌, ◌≤◌, Bool, ◌++◌, ◌>>=◌, ℕ, ◌≡◌, refl, arith, Option, none, some, Bytes, bytes,
  [], ◌∷◌, List, ok, length, err, panic, Error, wrap, invalid_request, if◌then◌else◌, ◌==◌,
}
use bluechip_chain_official.MathInt.{ℤ, pos}
use bluechip_chain_official.Cmd.MultiNode.{
  lookup, parse_stakes, split_comma, split_from, Service, node_port, rpc, assign, parse_ports,
}
use bluechip_chain_official.Cmd.InPlace.{parse_accounts}
use bluechip_chain_official.Cmd.InPlace.Accounts.{non_empty, HaveAddresses, parse_accounts_lem}
use bluechip_chain_official.Cmd.Export.{ExportOptions}
use bluechip_chain_official.Cmd.MultiNode.Stakes.{
  numbers, coins_of, entry_from, or_else, lookup-parse_stakes,
}
use bluechip_chain_official.Cmd.MultiNode.Ports.{node_port-injective, HasPort, node_port-HasPort}

split_two : split_comma (bytes "1,,2") ≡ bytes "1" ∷ [] ∷ bytes "2" ∷ []
unfolding split_comma split_from
split_two = refl

-- The amount is the length, and the empty string is none.
abbrev amount_of : Bytes → Option ℕ
amount_of [] = none
amount_of (c ∷ s) = some (length (c ∷ s))

-- No coin is made of 1.
abbrev coin_from : ℕ → Outcome ℕ
coin_from n = if n == 1 then panic else ok n

three_amounts :
    parse_stakes amount_of coin_from (bytes "xx" ∷ [] ∷ bytes "yyy" ∷ []) 0 []
    ≡ ok ((0, 2) ∷ (1, 3) ∷ [])
unfolding parse_stakes assign
three_amounts = refl

lookup-parse_stakes_example :
    (m : List ℕ → List (ℕ × ℕ)) × (parse_stakes amount_of coin_from ([] ∷ bytes "12" ∷ []) 0 []
      ≡ (coins_of coin_from (numbers amount_of ([] ∷ bytes "12" ∷ [])) >>= λ coins. ok (m coins)))
    × ((coins : List ℕ) (i : ℕ) → lookup (m coins) i ≡ or_else (entry_from 0 coins i) (lookup [] i))
lookup-parse_stakes_example = lookup-parse_stakes amount_of coin_from ([] ∷ bytes "12" ∷ []) 0 []

abbrev fourth : ℕ
fourth = 3

node_port-injective_example : (rpc ≡ rpc) × (fourth ≡ fourth)
node_port-injective_example =
    node_port-injective 4 rpc rpc fourth fourth (omega arith) (omega arith) (omega arith) refl

node_port-HasPort_example :
    ((s : Service) (i : ℕ) → i < 4 → HasPort (node_port (parse_ports 4 []) s i)) ↔ (4 ≤ 1317)
node_port-HasPort_example = node_port-HasPort 4

-- A string that begins with `a` is an address.
abbrev address_from : Bytes → Outcome Bytes
address_from [] = err invalid_request
address_from (c ∷ s) = if c == 97 then ok (c ∷ s) else err invalid_request

refused_part :
    parse_accounts address_from (bytes "a" ∷ [] ∷ bytes "b" ∷ []) []
    ≡ err (wrap (bytes "invalid bech32 address format ") invalid_request)
unfolding parse_accounts
refused_part = refl

parse_accounts_lem_example :
    ((found : List Bytes)
      → HaveAddresses address_from (non_empty (bytes "a" ∷ [] ∷ bytes "ab" ∷ [])) found
      → parse_accounts address_from (bytes "a" ∷ [] ∷ bytes "ab" ∷ []) [] ≡ ok ([] ++ found))
    × ((before found rest : List Bytes) (s : Bytes) (e : Error)
        → non_empty (bytes "a" ∷ [] ∷ bytes "ab" ∷ []) ≡ before ++ s ∷ rest
        → HaveAddresses address_from before found
        → address_from s ≡ err e
        → parse_accounts address_from (bytes "a" ∷ [] ∷ bytes "ab" ∷ []) []
          ≡ err (wrap (bytes "invalid bech32 address format ") e))
parse_accounts_lem_example = parse_accounts_lem address_from (bytes "a" ∷ [] ∷ bytes "ab" ∷ []) []

-- An application is the height that it is at, and it exports it.
abbrev app_at : Bool → ℕ → Outcome ℤ
app_at latest opts = ok (pos 9)

abbrev load : ℤ → ℤ → Outcome ℤ
load height app = ok height

abbrev export_options : ExportOptions ℕ
export_options = record { home = some (bytes "home"); set_check_period = some 1 }
