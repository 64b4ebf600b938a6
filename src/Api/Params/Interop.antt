-- ===== src/Api/Params/Interop.antt =====
-- The parameters of the chain, x/fixedmint/types, and those of its clients, api/, on one wire.
use bluechip_chain_official.Prelude.{
  ◌<◌, ◌≡◌, refl, ◌∙◌, ap, Bool, true, false, none, some, [], ok, ◌>>=◌, lt→ltb, length, append-nil,
}
use bluechip_chain_official.MathInt.{ℤ, MathInt, MathIntLaws}
use bluechip_chain_official.Fixedmint.Params as Chain
use bluechip_chain_official.Fixedmint.Params.Codec as ChainCodec
use bluechip_chain_official.Fixedmint.Params.Codec.Encode as ChainEncode
use bluechip_chain_official.Fixedmint.Params.Codec.Decode as ChainDecode
use bluechip_chain_official.Api.Runtime.{Runtime, RuntimeLaws, contents}
use bluechip_chain_official.Api.Buffer.{append_unknown, appended}
use bluechip_chain_official.Api.Params.{Params, zero_params, marshal, unmarshal}
use bluechip_chain_official.Api.Params.Encode.{encode, FitsInt, marshal_lem}
use bluechip_chain_official.Api.Buffer.Reads.{kept}
use bluechip_chain_official.Api.Params.Decode.{unmarshal-encode}

module _ (n : MathInt) (ints : MathIntLaws n) (r : Runtime) (laws : RuntimeLaws r) where
  open n use {Int}

  -- The client's message of the chain's parameters: the amount is the text of the integer.
  abbrev pub to_api : Chain.Params Int → Params
  to_api m = record {
    mint_denom = m.mint_denom;
    mint_amount = ints.encoding m.mint_amount;
    mint_enabled = m.mint_enabled;
    unknown_fields = none;
  }

  module _ (m : Chain.Params Int) (fits : ChainEncode.FitsInt n ints m)
      (written : 0 < length (ints.encoding m.mint_amount)) where
    pub encode-to_api : encode (to_api m) ≡ ChainEncode.encode n ints m
    encode-to_api =
        let e = ChainEncode.enabled_bytes m.mint_enabled in
        rw (lt→ltb 0 (length (ints.encoding m.mint_amount)) written, append-nil e)

    to_api-FitsInt : FitsInt (to_api m)
    to_api-FitsInt = rw encode-to_api fits

    -- Where the text of the amount is not empty, the client and the chain write parameters as the same
    -- bytes.
    pub client_marshal-marshal :
        (marshal r (some (to_api m)) none >>= λ out. ok (contents out)) ≡ ChainCodec.marshal n m
    unfolding appended
    client_marshal-marshal =
        rw
          (marshal_lem r laws (to_api m) none to_api-FitsInt, ChainEncode.marshal_lem n ints m fits)
          (ap ok encode-to_api)

    -- Parameters that a client marshals are read by the chain as they are, where the amount is an
    -- integer whose text is not empty, and the length is one that an int holds.
    pub chain_unmarshal-marshal :
        (z : ℤ)
        → ints.value m.mint_amount ≡ some z
        → (marshal r (some (to_api m)) none >>= λ out.
            ChainCodec.unmarshal n (contents out) (Chain.zero_params n))
          ≡ ok m
    unfolding appended
    chain_unmarshal-marshal z v =
        rw (marshal_lem r laws (to_api m) none to_api-FitsInt, encode-to_api)
          (ChainDecode.unmarshal-encode n ints m (Chain.zero_params n) z v fits
            ∙ ap ok (ChainDecode.merge_zero n ints m))

    -- And parameters that the chain marshals are read by a client as they are, under the same
    -- conditions.
    pub unmarshal-chain_marshal :
        (discard : Bool)
        → (ChainCodec.marshal n m >>= λ src. unmarshal r discard src (some zero_params))
          ≡ ok (some (to_api m))
    unfolding append_unknown
    unmarshal-chain_marshal discard =
        rw (ChainEncode.marshal_lem n ints m fits, ← encode-to_api)
          (unmarshal-encode r laws (to_api m) discard [] refl tt to_api-FitsInt
            ∙ ap (λ u. ok (some (record (to_api m) { unknown_fields = u }))) (nothing discard))
      where
        nothing : (b : Bool) → kept b [] ≡ none
        nothing true = refl
        nothing false = refl
