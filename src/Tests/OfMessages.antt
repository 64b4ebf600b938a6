-- ===== src/Tests/OfMessages.antt =====
-- The messages on the wire, at concrete inputs.
use bluechip_chain_official.Prelude.{◌≡◌, [], ◌∷◌, ok, ◌>>=◌, arith, Yields}
use bluechip_chain_official.MathInt.{pos}
use bluechip_chain_official.MathInt.Sample.{sample, sample_laws}
use bluechip_chain_official.MathInt.Sample
use bluechip_chain_official.Fixedmint.Params.{zero_params}
use bluechip_chain_official.Fixedmint.Module.{GenesisState}
use bluechip_chain_official.Fixedmint.Messages.Update.{zero_msg, msg_marshal, msg_unmarshal}
use bluechip_chain_official.Fixedmint.Messages.Update.Lemmas.{
  MsgFitsInt, msg_unmarshal_returns, msg_unmarshal-msg_marshal,
}
use bluechip_chain_official.Fixedmint.Messages.Single.{
  QueryParamsResponse, genesis_marshal, genesis_unmarshal,
}
use bluechip_chain_official.Fixedmint.Messages.Single.Instances.{genesis_unmarshal-genesis_marshal}
use bluechip_chain_official.Wire.Leb.{groups}
use bluechip_chain_official.Tests.Data.{five_coins, five_coins-amount, request}

request-MsgFitsInt : MsgFitsInt sample sample_laws request
unfolding five_coins groups sample_laws Sample.encode
request-MsgFitsInt = omega arith

msg_unmarshal-msg_marshal_example :
    (msg_marshal sample request >>= λ src. msg_unmarshal sample src (zero_msg sample)) ≡ ok request
msg_unmarshal-msg_marshal_example =
    msg_unmarshal-msg_marshal sample sample_laws request (pos 5) five_coins-amount
      request-MsgFitsInt

msg_unmarshal_returns_example :
    Yields (λ _. Unit) (msg_unmarshal sample (0x12 ∷ 0x02 ∷ 0x00 ∷ []) request)
msg_unmarshal_returns_example =
    msg_unmarshal_returns sample sample_laws (0x12 ∷ 0x02 ∷ 0x00 ∷ []) request (omega arith)

abbrev genesis : GenesisState sample.Int
genesis = record { params = five_coins }

abbrev response : QueryParamsResponse sample.Int
response = record { params = five_coins }

genesis_unmarshal-genesis_marshal_example :
    (genesis_marshal sample genesis >>= λ src.
    genesis_unmarshal sample src (record { params = zero_params sample }))
    ≡ ok genesis
unfolding five_coins groups sample_laws Sample.encode
genesis_unmarshal-genesis_marshal_example =
    genesis_unmarshal-genesis_marshal sample sample_laws genesis (pos 5) five_coins-amount
      (omega arith)
