-- ===== src/Cmd/MultiNode/Ports.antt =====
-- The ports of a testnet on one machine.
use bluechip_chain_official.Prelude.{
  Bool-cases, inl, inr, ℕ, zero, suc, ◌+◌, ◌-◌, ◌*◌, ◌/◌, ◌%◌, sym, ◌<◌, ◌≤◌, ◌↔◌, le→leb, ◌≡◌, ◌∙◌,
  arith, ap, none, some, List, [], leb, ltb, ◌&&◌, ◌==◌, if◌then◌else◌, refl, Option,
}
use native.Mathlib.Decide.{dec_lt}
use bluechip_chain_official.MathInt.{ℤ, pos, negsuc}
use bluechip_chain_official.Cmd.MultiNode.{
  minus, lookup, assign, Port, number, default_ports, parse_ports, Service, p2p, rpc, proxy,
  prometheus, grpc, api, toml_port, app_port, node_port, part,
}
use bluechip_chain_official.Cmd.MultiNode.Stakes.{lookup-assign}

-- The entry of `top`, and those after it.
with_next :
    (count top : ℕ) (ports : List (ℕ × Port)) (i : ℕ)
    → (if leb (top + 1) i && ltb i (top + 1 + count)
        then some (number (minus 26657 (3 * i)))
        else lookup (assign top (number (minus 26657 (3 * top))) ports) i)
      ≡ (if leb top i && ltb i (top + suc count)
          then some (number (minus 26657 (3 * i)))
          else lookup ports i)
with_next count top ports i =
    rw (lookup-assign top i (number (minus 26657 (3 * top))) ports) (elim (Bool-cases (top == i)) [
      | inl same ↦ let e : top ≡ i = ground arith in rw e (ground arith)
      | inr other ↦ rw other (ground arith)
    ])

lookup-default_ports :
    (count top : ℕ) (ports : List (ℕ × Port)) (i : ℕ)
    → lookup (default_ports count top ports) i ≡ (
        if leb top i && ltb i (top + count)
        then some (number (minus 26657 (3 * i)))
        else lookup ports i)
unfolding default_ports
lookup-default_ports zero top ports i = ground arith
lookup-default_ports (suc count) top ports i =
    lookup-default_ports count (top + 1) (assign top (number (minus 26657 (3 * top))) ports) i
    ∙ with_next count top ports i

-- Without the flag each validator has the RPC port 26657 - 3 * i, and there is no other entry.
pub lookup-parse_ports :
    (validators i : ℕ)
    → lookup (parse_ports validators []) i
      ≡ (if ltb i validators then some (number (minus 26657 (3 * i))) else none)
unfolding parse_ports lookup
lookup-parse_ports validators i = lookup-default_ports validators 0 [] i ∙ ground arith

-- The number of a service's port where the flag for ports is left out.
unfoldable pub default_port : Service → ℕ → ℤ
default_port p2p i = minus 26656 (3 * i)
default_port rpc i = minus 26657 (3 * i)
default_port proxy i = minus 26658 (3 * i)
default_port prometheus i = pos (26660 + i)
default_port grpc i = minus 9090 (2 * i)
default_port api i = minus 1317 i

node_port-default_port :
    (validators : ℕ) (s : Service) (i : ℕ)
    → i < validators
    → node_port (parse_ports validators []) s i ≡ some (number (default_port s i))
unfolding node_port toml_port app_port default_port
node_port-default_port validators p2p i h = refl
node_port-default_port validators rpc i h = lookup-parse_ports validators i ∙ ground arith
node_port-default_port validators proxy i h = refl
node_port-default_port validators prometheus i h = refl
node_port-default_port validators grpc i h = refl
node_port-default_port validators api i h = refl

-- The service and the validator of a port, as long as there are at most 1318 validators.
service_of : ℕ → Service × ℕ
service_of v =
    if ltb v 1318
    then (api, 1317 - v)
    else if ltb v 9091
    then (grpc, (9090 - v) / 2)
    else if leb 26660 v
    then (prometheus, v - 26660)
    else if (v - 1) % 3 == 0
    then (p2p, 8885 - (v - 1) / 3)
    else if (v - 1) % 3 == 1
    then (rpc, 8885 - (v - 1) / 3)
    else (proxy, 8885 - (v - 1) / 3)

service_of_int : ℤ → Service × ℕ
unfolding service_of
service_of_int (pos v) = service_of v
service_of_int (negsuc v) = (api, 0)

service_of_int-default_port :
    (s : Service) (i : ℕ) → i < 1318 → service_of_int (default_port s i) ≡ (s, i)
unfolding service_of_int service_of default_port
service_of_int-default_port p2p i h = ground arith
service_of_int-default_port rpc i h = ground arith
service_of_int-default_port proxy i h = ground arith
service_of_int-default_port prometheus i h = ground arith
service_of_int-default_port grpc i h = ground arith
service_of_int-default_port api i h = ground arith

pub node_port-injective :
    (validators : ℕ) (s t : Service) (i j : ℕ)
    → validators ≤ 1318
    → i < validators
    → j < validators
    → node_port (parse_ports validators []) s i ≡ node_port (parse_ports validators []) t j
    → (s ≡ t) × (i ≡ j)
node_port-injective validators s t i j few a b e =
    let e' : some (number (default_port s i)) ≡ some (number (default_port t j)) =
      sym (node_port-default_port validators s i a) ∙ e ∙ node_port-default_port validators t j b in
    let same : default_port s i ≡ default_port t j = cc e' in
    let whole =
      sym (service_of_int-default_port s i (omega arith))
      ∙ ap service_of_int same
      ∙ service_of_int-default_port t j (omega arith) in
    (ap (λ (x : Service × ℕ). x.0) whole, ap (λ (x : Service × ℕ). x.1) whole)

-- A port that can be listened on.
abbrev pub IsPort : ℤ → Type 0
IsPort (pos n) = (1 ≤ n) × (n ≤ 65535)
IsPort (negsuc n) = ⊥

minus-IsPort : (a b : ℕ) → a ≤ 65535 → b < a → IsPort (minus a b)
minus-IsPort a b small less = rw (le→leb b a (omega arith)) (omega arith, omega arith)

default_port-IsPort : (s : Service) (i : ℕ) → i < 1317 → IsPort (default_port s i)
unfolding default_port
default_port-IsPort p2p i h = minus-IsPort 26656 (3 * i) (omega arith) (omega arith)
default_port-IsPort rpc i h = minus-IsPort 26657 (3 * i) (omega arith) (omega arith)
default_port-IsPort proxy i h = minus-IsPort 26658 (3 * i) (omega arith) (omega arith)
default_port-IsPort prometheus i h = (omega arith, omega arith)
default_port-IsPort grpc i h = minus-IsPort 9090 (2 * i) (omega arith) (omega arith)
default_port-IsPort api i h = minus-IsPort 1317 i (omega arith) (omega arith)

-- A service has a port that can be listened on.
abbrev pub HasPort : Option Port → Type 0
HasPort none = ⊥
HasPort (some (number z)) = IsPort z
HasPort (some (part s)) = ⊥

-- Where the flag for ports is left out, all services of all nodes have a port between 1 and 65535 just where
-- there are at most 1317 validators.
pub node_port-HasPort :
    (validators : ℕ)
    → ((s : Service) (i : ℕ) → i < validators → HasPort (node_port (parse_ports validators []) s i))
      ↔ (validators ≤ 1317)
unfolding default_port
node_port-HasPort validators = (
  λ valid. elim (dec_lt 1317 validators) [
    | yes more ↦
        let last = rw (node_port-default_port validators api 1317 more) at (valid api 1317 more) in
        let low = last.0 in absurd (omega arith)
    | no few ↦ omega arith
  ],
  λ few s i h. rw (node_port-default_port validators s i h) (default_port-IsPort s i (omega arith)),
)
