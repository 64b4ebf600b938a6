-- ===== src/Cmd/MultiNode.antt =====
-- The arguments of `multi-node`, and the ports of its nodes: cmd/bluechipchaind/cmd/testnet_multi_node.go.
-- The parsing of an amount and `sdk.NewCoin` are parameters.
pub mod Stakes
pub mod Ports
pub mod Genesis
pub mod InitialState
pub mod Gentx
use bluechip_chain_official.Prelude.{
  ℕ, zero, suc, ◌+◌, ◌-◌, ◌*◌, Bool, true, false, Option, none, some, Bytes, List, [], ◌∷◌, Outcome,
  ok, ◌>>=◌, leb, ◌==◌, if◌then◌else◌,
}
use bluechip_chain_official.MathInt.{ℤ, pos, negsuc}

-- `a - b` of two ints.
abbrev pub minus : ℕ → ℕ → ℤ
minus a b = if leb b a then pos (a - b) else negsuc (b - a - 1)

-- A map from ints: an assignment replaces what the key had.
unfoldable pub lookup {ℓ} : {V : Type ℓ} → List (ℕ × V) → ℕ → Option V
lookup [] i = none
lookup ((k, v) ∷ m) i = if k == i then some v else lookup m i

unfoldable pub assign {ℓ} : {V : Type ℓ} → ℕ → V → List (ℕ × V) → List (ℕ × V)
assign i v [] = (i, v) ∷ []
assign i v ((k, w) ∷ m) = let rest = assign i v m in if k == i then (i, v) ∷ m else (k, w) ∷ rest

-- `strings.Split(s, ",")`, with the part that is being read.
unfoldable pub split_from : Bytes → Bytes → List Bytes
split_from part [] = part ∷ []
split_from part (c ∷ s) =
    let more = split_from (append_byte part c) s in
    let others = split_from [] s in if c == 44 then part ∷ others else more
  where
    append_byte : Bytes → ℕ → Bytes
    append_byte [] c = c ∷ []
    append_byte (d ∷ ds) c = d ∷ append_byte ds c

unfoldable pub split_comma : Bytes → List Bytes
unfolding split_from
split_comma s = split_from [] s

module _ {Int Coin : Type 0} (new_int_from_string : Bytes → Option Int)
    (new_coin : Int → Outcome Coin) where
  -- The loop over the amounts, where `top` is the next validator.
  unfoldable pub parse_stakes : List Bytes → ℕ → List (ℕ × Coin) → Outcome (List (ℕ × Coin))
  parse_stakes [] top stakes = ok stakes
  parse_stakes (amount ∷ amounts) top stakes = elim (new_int_from_string amount) [
    | none ↦ parse_stakes amounts top stakes
    | some a ↦ do coin ← new_coin a; parse_stakes amounts (top + 1) (assign top coin stakes)
  ]

  -- A validator's stake, `fallback` where the map has none.
  unfoldable pub stake : Coin → List (ℕ × Coin) → ℕ → Coin
  unfolding lookup
  stake fallback stakes i = elim (lookup stakes i) [ none ↦ fallback | some coin ↦ coin ]

-- A port as it is written: a number by `strconv.Itoa`, or a part of the flag.
pub data Port : Type 0 where
  number : ℤ → Port
  part : Bytes → Port

-- `26657 - 3*i` for the validators from `top` on.
unfoldable pub default_ports : ℕ → ℕ → List (ℕ × Port) → List (ℕ × Port)
default_ports zero top ports = ports
default_ports (suc count) top ports =
    default_ports count (top + 1) (assign top (number (minus 26657 (3 * top))) ports)

unfoldable pub listed_ports : List Bytes → ℕ → List (ℕ × Port) → List (ℕ × Port)
listed_ports [] top ports = ports
listed_ports (p ∷ ps) top ports = listed_ports ps (top + 1) (assign top (part p) ports)

unfoldable pub parse_ports : ℕ → Bytes → List (ℕ × Port)
unfolding default_ports listed_ports split_comma
parse_ports validators [] = default_ports validators 0 []
parse_ports validators (c ∷ s) = listed_ports (split_comma (c ∷ s)) 0 []

-- What a node listens on.
pub data Service : Type 0 where
  p2p rpc proxy prometheus grpc api : Service

-- The ports in a node's config.toml; that of RPC is what the map has, and nothing where it has none.
unfoldable pub toml_port : List (ℕ × Port) → Service → ℕ → Option Port
unfolding lookup
toml_port ports p2p i = some (number (minus 26656 (3 * i)))
toml_port ports rpc i = lookup ports i
toml_port ports proxy i = some (number (minus 26658 (3 * i)))
toml_port ports prometheus i = some (number (pos (26660 + i)))
toml_port ports grpc i = none
toml_port ports api i = none

-- The ports in a node's app.toml.
unfoldable pub app_port : Service → ℕ → Option Port
app_port grpc i = some (number (minus 9090 (2 * i)))
app_port api i = some (number (minus 1317 i))
app_port p2p i = none
app_port rpc i = none
app_port proxy i = none
app_port prometheus i = none

-- The port of a service of a node, in the one file or in the other.
unfoldable pub node_port : List (ℕ × Port) → Service → ℕ → Option Port
unfolding toml_port app_port
node_port ports p2p i = toml_port ports p2p i
node_port ports rpc i = toml_port ports rpc i
node_port ports proxy i = toml_port ports proxy i
node_port ports prometheus i = toml_port ports prometheus i
node_port ports grpc i = app_port grpc i
node_port ports api i = app_port api i
