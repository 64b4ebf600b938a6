-- ===== src/Fixedmint/Messages/Single.antt =====
-- The messages whose one field, of number 1, is the parameters: `GenesisState` of
-- x/fixedmint/types/genesis.pb.go and `QueryParamsResponse` of query.pb.go. The generated code of the
-- two is the same but for names; the first section is that code.
pub mod Lemmas
pub mod Instances
use bluechip_chain_official.Prelude.{
  ℕ, Bool, true, false, not, Bytes, Outcome, ok, wrong_wire_type, ◌>>=◌, ◌>>◌, fail_if, ◌==◌,
  if◌then◌else◌,
}
use bluechip_chain_official.MathInt.{MathInt}
use bluechip_chain_official.Fixedmint.Params.{Params}
use bluechip_chain_official.Fixedmint.Module.{GenesisState}
use bluechip_chain_official.Fixedmint.Messages.{params_size, put_params, read_params}
use bluechip_chain_official.Wire.Buffer.{Cursor, sized, made}
use bluechip_chain_official.Wire.Read.{skip}
use bluechip_chain_official.Wire.Message.{dropped, Handled, next, unknown, unmarshal_into}

module _ (n : MathInt) {M : Type 0} (get : M → Params n.Int) (set : Params n.Int → M → M) where
  unfoldable pub single_size : M → ℕ
  single_size m = params_size n (get m)

  unfoldable pub put_single : M → Cursor → Outcome Cursor
  put_single m c = put_params n 0xa (get m) c

  unfoldable pub single_marshal : M → Outcome Bytes
  unfolding single_size put_single
  single_marshal m = made (single_size m) (sized (put_single m))

  unfoldable pub handle_single : ℕ → ℕ → ℕ → Bytes → ℕ → M → Outcome (Handled M)
  handle_single field t l src i m =
      if field == 1
      then (do
        fail_if (not (t == 2)) (wrong_wire_type t 1)
        (p, i', rest) ← read_params n l src i (get m)
        ok (next (set p m) i' rest))
      else ok unknown

  unfoldable pub single_unmarshal : (Bytes → Outcome ℕ) → Bytes → M → Outcome M
  unfolding handle_single
  single_unmarshal skip_field src m = unmarshal_into skip_field dropped handle_single src m

pub record QueryParamsResponse (Int : Type 0) : Type 0 where
  pub params : Params Int

unfoldable pub skip_genesis : Bytes → Outcome ℕ
skip_genesis data' = skip data'

unfoldable pub skip_query : Bytes → Outcome ℕ
skip_query data' = skip data'

module _ (n : MathInt) where
  open n use {Int}

  abbrev pub set_genesis : Params Int → GenesisState Int → GenesisState Int
  set_genesis p m = record { params = p }

  unfoldable pub genesis_marshal : GenesisState Int → Outcome Bytes
  genesis_marshal m = single_marshal n (λ s. s.params) set_genesis m

  unfoldable pub genesis_unmarshal : Bytes → GenesisState Int → Outcome (GenesisState Int)
  unfolding skip_genesis
  genesis_unmarshal src m = single_unmarshal n (λ s. s.params) set_genesis skip_genesis src m

  abbrev pub set_response : Params Int → QueryParamsResponse Int → QueryParamsResponse Int
  set_response p m = record { params = p }

  unfoldable pub query_marshal : QueryParamsResponse Int → Outcome Bytes
  query_marshal m = single_marshal n (λ s. s.params) set_response m

  unfoldable pub query_unmarshal :
      Bytes → QueryParamsResponse Int → Outcome (QueryParamsResponse Int)
  unfolding skip_query
  query_unmarshal src m = single_unmarshal n (λ s. s.params) set_response skip_query src m

-- `QueryParamsRequest` has no field.
unfoldable pub handle_request : ℕ → ℕ → ℕ → Bytes → ℕ → Unit {0} → Outcome (Handled (Unit {0}))
handle_request field t l src i m = ok unknown

unfoldable pub request_unmarshal : Bytes → Unit {0} → Outcome (Unit {0})
unfolding skip_query handle_request
request_unmarshal src m = unmarshal_into skip_query dropped handle_request src m
