-- ===== src/Api/Interop.antt =====
-- The transaction's message and the query's response between the chain, x/fixedmint/types, and its
-- clients, api/.
use bluechip_chain_official.Prelude.{
  ◌<◌, ◌^◌, ◌≡◌, refl, sym, ◌∙◌, ap, subst, arith, Bool, true, false, none, some, Bytes, [], ok,
  ◌>>=◌, length, length-append, append-nil,
}
use bluechip_chain_official.MathInt.{ℤ, MathInt, MathIntLaws}
use bluechip_chain_official.Wire.Leb.{varint}
use bluechip_chain_official.Fixedmint.Params.Codec.Encode as ChainEncode
use bluechip_chain_official.Fixedmint.Keeper.{MsgUpdateParams}
use bluechip_chain_official.Fixedmint.Messages.Update.{msg_unmarshal, zero_msg}
use bluechip_chain_official.Fixedmint.Messages.Update.Lemmas.{
  parts_fit, encode_msg, MsgFitsInt, msg_marshal_lem, msg_unmarshal-msg_marshal,
}
use bluechip_chain_official.Fixedmint.Messages.Single.{
  QueryParamsResponse, query_marshal, set_response, skip_query,
}
use bluechip_chain_official.Fixedmint.Messages.Single.Lemmas.{encode_single, single_marshal_lem}
use bluechip_chain_official.Api.Runtime.{Runtime, RuntimeLaws, contents}
use bluechip_chain_official.Api.Buffer.{append_unknown, appended}
use bluechip_chain_official.Api.Buffer.Reads.{kept}
use bluechip_chain_official.Api.Params.Interop.{to_api, encode-to_api}
use bluechip_chain_official.Api.Nested.Laws.{params_kept}
use bluechip_chain_official.Api.Update as Client
use bluechip_chain_official.Api.Update.Encode as ClientEncode
use bluechip_chain_official.Api.Single.{zero_single}
use bluechip_chain_official.Api.Single.Codec as ClientSingle
use bluechip_chain_official.Api.Single.QueryResponse as ClientQuery

module _ (n : MathInt) (ints : MathIntLaws n) (r : Runtime) (laws : RuntimeLaws r) where
  open n use {Int}

  nothing_kept : (b : Bool) → kept b [] ≡ none
  unfolding append_unknown
  nothing_kept true = refl
  nothing_kept false = refl

  -- The client's form of the chain's messages.
  abbrev pub update_to_api : MsgUpdateParams Int → Client.MsgUpdateParams
  update_to_api m = record {
    authority = m.authority;
    params = some (to_api n ints r laws m.params);
    unknown_fields = none;
  }

  abbrev pub response_to_api : QueryParamsResponse Int → ClientQuery.QueryParamsResponse
  response_to_api m = record {
    params = some (to_api n ints r laws m.params);
    unknown_fields = none;
  }

  module _ (m : MsgUpdateParams Int) (fits : MsgFitsInt n ints m)
      (written : 0 < length (ints.encoding m.params.mint_amount)) where
    params_fit : ChainEncode.FitsInt n ints m.params
    params_fit = (parts_fit n ints m fits).1

    encode-update : ClientEncode.encode (update_to_api m) ≡ encode_msg n ints m
    encode-update = rw (encode-to_api n ints r laws m.params params_fit written, append-nil)

    -- A message that a client marshals is read by the chain as it is, where the amount is an integer
    -- whose text is not empty, and the length is one that an int holds.
    pub msg_unmarshal-update :
        (z : ℤ)
        → ints.value m.params.mint_amount ≡ some z
        → (Client.marshal r (some (update_to_api m)) none >>= λ out.
            msg_unmarshal n (contents out) (zero_msg n))
          ≡ ok m
    unfolding appended
    msg_unmarshal-update z v =
        let small : ClientEncode.FitsInt (update_to_api m) = rw encode-update fits in
        let read =
          rw (msg_marshal_lem n ints m fits) at (msg_unmarshal-msg_marshal n ints m z v fits) in
        rw (ClientEncode.marshal_lem r laws (update_to_api m) none small, encode-update) read

  module _ (m : QueryParamsResponse Int)
      (fits : length (
          encode_single n ints {M = QueryParamsResponse Int}
            (λ s. s.params)
            (set_response n)
            skip_query
            m)
        < 2 ^ 63)
      (written : 0 < length (ints.encoding m.params.mint_amount)) where
    response_fits : ChainEncode.FitsInt n ints m.params
    response_fits =
        let s = ChainEncode.encode n ints m.params in
        omega (arith, length-append (varint (length s)) s)

    encode-response :
        ClientSingle.encode (response_to_api m)
        ≡ encode_single n ints {M = QueryParamsResponse Int}
            (λ s. s.params)
            (set_response n)
            skip_query
            m
    encode-response = rw (encode-to_api n ints r laws m.params response_fits written, append-nil)

    response_to_api-FitsInt : ClientSingle.FitsInt (response_to_api m)
    response_to_api-FitsInt = subst (λ (s : Bytes). length s < 2 ^ 63) (sym encode-response) fits

    -- A response that the chain marshals is read by a client as it is, where the text of the amount is
    -- not empty, and the length is one that an int holds.
    pub unmarshal-query_marshal :
        (discard : Bool)
        → (query_marshal n m >>= λ src. ClientQuery.unmarshal r discard src (some zero_single))
          ≡ ok (some (response_to_api m))
    unfolding query_marshal appended ClientQuery.marshal ClientQuery.unmarshal
    unmarshal-query_marshal discard =
        let small = response_to_api-FitsInt in
        let read =
          ClientSingle.single_unmarshal-single_marshal r laws (response_to_api m) discard [] [] refl
            tt (refl, tt) small in
        let read' =
          rw (ClientSingle.single_marshal_lem r laws (response_to_api m) none small) at read in
        let sent =
          single_marshal_lem n ints (λ s. s.params) (set_response n) skip_query m fits
          ∙ ap ok (sym encode-response) in
        rw sent (read' ∙ kept_as_is discard)
      where
        kept_as_is :
            (b : Bool)
            → ok (
                some (record {
                  params = params_kept b [] (response_to_api m).params;
                  unknown_fields = kept b [];
                }))
              ≡ ok (some (response_to_api m))
        kept_as_is b = rw (nothing_kept b)
