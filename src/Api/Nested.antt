-- ===== src/Api/Nested.antt =====
-- A field of a message of api/ that is a `*Params`: the case of the switch in the `unmarshal` closures of
-- tx.pulsar.go, genesis.pulsar.go and query.pulsar.go.
pub mod Laws
use bluechip_chain_official.Prelude.{ℕ, ◌+◌, Bool, Option, none, some, Bytes, Outcome, ok, ◌>>=◌}
use bluechip_chain_official.Wire.Read.{read_delimited}
use bluechip_chain_official.Api.Runtime.{Runtime}
use bluechip_chain_official.Api.Params.{Params, zero_params, unmarshal}

-- `if x.Params == nil { x.Params = &Params{} }`
unfoldable pub allocated : Option Params → Params
allocated none = zero_params
allocated (some p) = p

-- The length, its checks, and the bytes merged into the parameters.
unfoldable pub read_params :
    Runtime → Bool → ℕ → Bytes → ℕ → Option Params → Outcome (Option Params × ℕ × Bytes)
read_params r discard l src i o = do
  (s, i', rest) ← read_delimited l src i
  p ← r.options_unmarshal (unmarshal r) discard s (some (allocated o))
  ok (p, i', rest)
