-- ===== src/Tests/OfApi.antt =====
-- The messages of the client API at concrete inputs.
use bluechip_chain_official.Prelude.{
  ◌≡◌, refl, arith, true, false, none, some, List, bytes, [], ◌∷◌, ok, ◌>>=◌, Yields,
}
use bluechip_chain_official.MathInt.{pos}
use bluechip_chain_official.MathInt.Sample.{sample, sample_laws}
use bluechip_chain_official.MathInt.Sample
use bluechip_chain_official.Wire.Leb.{groups}
use bluechip_chain_official.Wire.Read.{read_loop, read_varint, skip_value, skip_loop, skip}
use bluechip_chain_official.Fixedmint.Params.Codec as ChainCodec
use bluechip_chain_official.Fixedmint.Messages.Single.{QueryParamsResponse}
use bluechip_chain_official.Fixedmint.Messages.Update.{msg_unmarshal, zero_msg}
use bluechip_chain_official.Fixedmint.Messages.Update.Lemmas.{MsgFitsInt}
use bluechip_chain_official.Api.Runtime.{contents}
use bluechip_chain_official.Api.Runtime.Sample.{sample_runtime, sample_runtime_laws}
use bluechip_chain_official.Api.Buffer.Reads.{WireField, AreForeign, kept}
use bluechip_chain_official.Api.Nested.Laws.{params_kept}
use bluechip_chain_official.Api.Params as ClientParams
use bluechip_chain_official.Api.Params.Encode as ClientParamsEncode
use bluechip_chain_official.Api.Params.Decode.{params_unmarshal-marshal}
use bluechip_chain_official.Api.Params.Interop.{
  to_api, client_marshal-marshal, unmarshal-chain_marshal,
}
use bluechip_chain_official.Api.Update as ClientUpdate
use bluechip_chain_official.Api.Update.Encode as ClientUpdateEncode
use bluechip_chain_official.Api.Update.Decode.{update_unmarshal-marshal, update_unmarshal_returns}
use bluechip_chain_official.Api.Interop.{update_to_api, msg_unmarshal-update}
use bluechip_chain_official.Tests.Data.{five_coins, five_coins-amount, five_coins-FitsInt, request}

-- A message with a field of number 4 that it has not.
abbrev extra : List WireField
extra = record { tag = 0x22; payload = 1 ∷ 7 ∷ [] } ∷ []

abbrev extended : ClientParams.Params
extended = record {
  mint_denom = bytes "ubluechip";
  mint_amount = bytes "5";
  mint_enabled = true;
  unknown_fields = some (0x22 ∷ 1 ∷ 7 ∷ []);
}

extra-AreForeign : AreForeign skip ClientParams.handle_field extra
unfolding groups skip skip_loop skip_value read_varint read_loop ClientParams.handle_field
extra-AreForeign = ((omega arith, omega arith, omega arith, λ l src j m. refl), refl, tt)

extended-FitsInt : ClientParamsEncode.FitsInt extended
unfolding groups
extended-FitsInt = omega arith

params_unmarshal-marshal_example :
    (ClientParams.marshal sample_runtime (some extended) none >>= λ out.
    ClientParams.unmarshal sample_runtime false (contents out) (some ClientParams.zero_params))
    ≡ ok (some (record extended { unknown_fields = kept false extra }))
unfolding groups
params_unmarshal-marshal_example =
    params_unmarshal-marshal sample_runtime sample_runtime_laws extended false extra refl
      extra-AreForeign extended-FitsInt

abbrev update : ClientUpdate.MsgUpdateParams
update = record { authority = bytes "gov"; params = some extended; unknown_fields = none }

update-FitsInt : ClientUpdateEncode.FitsInt update
unfolding groups
update-FitsInt = omega arith

update_unmarshal-marshal_example :
    (ClientUpdate.marshal sample_runtime (some update) none >>= λ out.
    ClientUpdate.unmarshal sample_runtime true (contents out) (some ClientUpdate.zero_msg))
    ≡ ok (
        some (record {
          authority = bytes "gov";
          params = params_kept true extra (some extended);
          unknown_fields = kept true [];
        }))
unfolding groups
update_unmarshal-marshal_example =
    update_unmarshal-marshal sample_runtime sample_runtime_laws update true [] extra refl tt
      (refl, extra-AreForeign) update-FitsInt

update_unmarshal_returns_example :
    Yields
      (λ _. Unit)
      (ClientUpdate.unmarshal sample_runtime false (0x12 ∷ 0x7f ∷ []) (some update))
update_unmarshal_returns_example =
    update_unmarshal_returns sample_runtime sample_runtime_laws false (0x12 ∷ 0x7f ∷ [])
      (some update) (omega arith)

client_marshal-marshal_example :
    (ClientParams.marshal sample_runtime
        (some (to_api sample sample_laws sample_runtime sample_runtime_laws five_coins))
        none
      >>= λ out. ok (contents out))
    ≡ ChainCodec.marshal sample five_coins
unfolding five_coins sample_laws Sample.encode
client_marshal-marshal_example =
    client_marshal-marshal sample sample_laws sample_runtime sample_runtime_laws five_coins
      five_coins-FitsInt (omega arith)

unmarshal-chain_marshal_example :
    (ChainCodec.marshal sample five_coins >>= λ src.
    ClientParams.unmarshal sample_runtime true src (some ClientParams.zero_params))
    ≡ ok (some (to_api sample sample_laws sample_runtime sample_runtime_laws five_coins))
unfolding five_coins sample_laws Sample.encode
unmarshal-chain_marshal_example =
    unmarshal-chain_marshal sample sample_laws sample_runtime sample_runtime_laws five_coins
      five_coins-FitsInt (omega arith) true

request-MsgFitsInt : MsgFitsInt sample sample_laws request
unfolding five_coins groups sample_laws Sample.encode
request-MsgFitsInt = omega arith

msg_unmarshal-update_example :
    (ClientUpdate.marshal sample_runtime
        (some (update_to_api sample sample_laws sample_runtime sample_runtime_laws request))
        none
      >>= λ out. msg_unmarshal sample (contents out) (zero_msg sample))
    ≡ ok request
unfolding five_coins sample_laws Sample.encode
msg_unmarshal-update_example =
    msg_unmarshal-update sample sample_laws sample_runtime sample_runtime_laws request
      request-MsgFitsInt (omega arith) (pos 5) five_coins-amount

abbrev response : QueryParamsResponse sample.Int
response = record { params = five_coins }
