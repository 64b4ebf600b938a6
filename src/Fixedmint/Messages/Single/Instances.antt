-- ===== src/Fixedmint/Messages/Single/Instances.antt =====
-- The genesis state, the query and the messages without a field, on the wire.
use bluechip_chain_official.Prelude.{◌^◌, ◌<◌, ◌≡◌, refl, some, Bytes, ok, ◌>>=◌, length, Yields}
use bluechip_chain_official.MathInt.{ℤ, MathInt, MathIntLaws}
use bluechip_chain_official.Fixedmint.Params.{zero_params}
use bluechip_chain_official.Fixedmint.Module.{GenesisState}
use bluechip_chain_official.Fixedmint.Messages.Single.{
  QueryParamsResponse, skip_genesis, skip_query, set_genesis, set_response, genesis_marshal,
  genesis_unmarshal, query_marshal, query_unmarshal, handle_request, request_unmarshal,
}
use bluechip_chain_official.Fixedmint.Messages.Update.{skip_tx, handle_response, response_unmarshal}
use bluechip_chain_official.Fixedmint.Messages.Single.Lemmas.{
  encode_single, single_unmarshal_returns, single_unmarshal-single_marshal,
}
use bluechip_chain_official.Wire.Read.Progress.{skip_moves}
use bluechip_chain_official.Wire.Message.{dropped}
use bluechip_chain_official.Wire.Message.Total.{IsTotal, unmarshal_into_total}

handle_response-IsTotal : IsTotal handle_response
unfolding handle_response
handle_response-IsTotal field t l src i m e = tt

handle_request-IsTotal : IsTotal handle_request
unfolding handle_request
handle_request-IsTotal field t l src i m e = tt

-- A message without a field is read, or refused, on every input of a length that an int holds.
pub response_unmarshal_returns :
    (src : Bytes) (m : Unit {0})
    → length src < 2 ^ 63
    → Yields (λ _. Unit) (response_unmarshal src m)
unfolding response_unmarshal skip_tx
response_unmarshal_returns src m fits =
    unmarshal_into_total skip_tx dropped handle_response skip_moves handle_response-IsTotal src m
      fits

pub request_unmarshal_returns :
    (src : Bytes) (m : Unit {0})
    → length src < 2 ^ 63
    → Yields (λ _. Unit) (request_unmarshal src m)
unfolding request_unmarshal skip_query
request_unmarshal_returns src m fits =
    unmarshal_into_total skip_query dropped handle_request skip_moves handle_request-IsTotal src m
      fits

module _ (n : MathInt) (laws : MathIntLaws n) where
  open n use {Int}

  -- On every input of a length that an int holds, `Unmarshal` of the genesis state comes back with a state or with an error.
  pub genesis_unmarshal_returns :
      (src : Bytes) (m : GenesisState Int)
      → length src < 2 ^ 63
      → Yields (λ _. Unit) (genesis_unmarshal n src m)
  unfolding genesis_unmarshal skip_genesis
  genesis_unmarshal_returns src m fits =
      single_unmarshal_returns n laws (λ s. s.params) (set_genesis n) skip_genesis skip_moves src m
        fits

  -- On every input of a length that an int holds, `Unmarshal` of the query's response comes back with a response or with an error.
  pub query_unmarshal_returns :
      (src : Bytes) (m : QueryParamsResponse Int)
      → length src < 2 ^ 63
      → Yields (λ _. Unit) (query_unmarshal n src m)
  unfolding query_unmarshal skip_query
  query_unmarshal_returns src m fits =
      single_unmarshal_returns n laws (λ s. s.params) (set_response n) skip_query skip_moves src m
        fits

  -- A genesis state whose amount is not nil, and whose length an int holds, is read back from what
  -- `Marshal` wrote as it was.
  pub genesis_unmarshal-genesis_marshal :
      (m : GenesisState Int) (z : ℤ)
      → laws.value m.params.mint_amount ≡ some z
      → length (
          encode_single n laws {M = GenesisState Int}
            (λ s. s.params)
            (set_genesis n)
            skip_genesis
            m)
        < 2 ^ 63
      → (genesis_marshal n m >>= λ src. genesis_unmarshal n src (record { params = zero_params n }))
        ≡ ok m
  unfolding genesis_marshal genesis_unmarshal
  genesis_unmarshal-genesis_marshal m z v h =
      single_unmarshal-single_marshal n laws (λ s. s.params) (set_genesis n) skip_genesis m
        (record { params = zero_params n }) m z v h refl refl

  -- A response of the query whose amount is not nil, and whose length an int holds, is read back from
  -- what `Marshal` wrote as it was.
  pub query_unmarshal-query_marshal :
      (m : QueryParamsResponse Int) (z : ℤ)
      → laws.value m.params.mint_amount ≡ some z
      → length (
          encode_single n laws {M = QueryParamsResponse Int}
            (λ s. s.params)
            (set_response n)
            skip_query
            m)
        < 2 ^ 63
      → (query_marshal n m >>= λ src. query_unmarshal n src (record { params = zero_params n }))
        ≡ ok m
  unfolding query_marshal query_unmarshal
  query_unmarshal-query_marshal m z v h =
      single_unmarshal-single_marshal n laws (λ s. s.params) (set_response n) skip_query m
        (record { params = zero_params n }) m z v h refl refl
