-- ===== src/Tests/OfParams.antt =====
-- The parameters at concrete inputs.
use bluechip_chain_official.Prelude.{
  ◌≡◌, Bytes, [], ◌∷◌, ◌++◌, ok, ◌>>=◌, replicate, length-replicate, Yields, arith,
}
use bluechip_chain_official.MathInt.{pos}
use bluechip_chain_official.MathInt.Sample.{sample, sample_laws}
use bluechip_chain_official.Fixedmint.Params.{validate, zero_params}
use bluechip_chain_official.Fixedmint.Params.Validation.{Verdict, validate-verdict}
use bluechip_chain_official.Fixedmint.Params.Codec.{
  marshal, unmarshal, marshal_to_sized_buffer, size,
}
use bluechip_chain_official.Fixedmint.Params.Codec.Encode.{encode, marshal_to_sized_buffer_lem}
use bluechip_chain_official.Fixedmint.Params.Codec.Decode.{unmarshal_returns, unmarshal-marshal}
use bluechip_chain_official.Tests.Data.{five_coins, five_coins-amount, five_coins-FitsInt}

validate-verdict_example :
    validate sample five_coins
    ≡ Verdict sample sample_laws five_coins.mint_denom (sample_laws.value five_coins.mint_amount)
validate-verdict_example = validate-verdict sample sample_laws five_coins

unmarshal_returns_example :
    Yields (λ _. Unit) (unmarshal sample (0x12 ∷ 0x02 ∷ 0x00 ∷ []) five_coins)
unmarshal_returns_example =
    unmarshal_returns sample sample_laws (0x12 ∷ 0x02 ∷ 0x00 ∷ []) five_coins (omega arith)

unmarshal-marshal_example :
    (marshal sample five_coins >>= λ src. unmarshal sample src (zero_params sample)) ≡ ok five_coins
unmarshal-marshal_example =
    unmarshal-marshal sample sample_laws five_coins (pos 5) five_coins-amount five_coins-FitsInt

abbrev front : Bytes
front = 7 ∷ []

marshal_to_sized_buffer_lem_example :
    marshal_to_sized_buffer sample five_coins (front ++ replicate (size sample five_coins) 0)
    ≡ ok (front ++ encode sample sample_laws five_coins, size sample five_coins)
marshal_to_sized_buffer_lem_example =
    marshal_to_sized_buffer_lem sample sample_laws five_coins front
      (replicate (size sample five_coins) 0) five_coins-FitsInt
      (length-replicate (size sample five_coins) 0)
