-- ===== src/Api/Params/Decode.antt =====
-- `unmarshal` of `Params` comes back on every input, and reads back what `marshal` wrote, the unknown
-- fields included.
use bluechip_chain_official.Prelude.{
  ℕ, ◌+◌, ◌^◌, ◌≤◌, ◌<◌, ◌≡◌, refl, sym, ap, arith, Bool, true, false, not, List, Option, none,
  some, Bytes, ◌∷◌, ◌++◌, ok, ◌>>=◌, ◌==◌, length, length-append, Yields, Yields->>=,
  Yields-fail_if, Yields-if,
}
use bluechip_chain_official.Wire.Read.{read_varint, read_delimited}
use bluechip_chain_official.Wire.Read.Progress.{
  TakesValue, TakesBytes, read_varint_takes, read_delimited_takes,
}
use bluechip_chain_official.Wire.Message.{Handled, unmarshal_into}
use bluechip_chain_official.Wire.Message.Total.{Keeps, IsTotal}
use bluechip_chain_official.Wire.Message.Fields.{Decodes, Decodes-field, read_small}
use bluechip_chain_official.Fixedmint.Params.Codec.Encode.{enabled_bytes}
use bluechip_chain_official.Api.Runtime.{Runtime, RuntimeLaws, contents}
use bluechip_chain_official.Api.Buffer.{appended, read_fields}
use bluechip_chain_official.Api.Buffer.Writes.{text_bytes}
use bluechip_chain_official.Api.Buffer.Reads.{
  WireField, fields_bytes, AreForeign, keep_all, kept, keep_in, keep_all-kept, Decodes-foreign,
  Decodes-text, read_fields_total,
}
use bluechip_chain_official.Api.Params.{
  Params, zero_params, with_unknown, keep_unknown, handle_field, marshal, unmarshal,
}
use bluechip_chain_official.Api.Params.Encode.{encode, FitsInt, marshal_lem}

handle_field-IsTotal : IsTotal handle_field
unfolding handle_field
handle_field-IsTotal field t l src i m e =
    let Q : Handled Params → Type 0 = Keeps src i in
    Yields-if Q (field == 1) _ _
      (λ _. Yields-fail_if Q (not (t == 2)) _ _ λ _.
        Yields->>= (TakesBytes src i) Q (read_delimited l src i) _ (read_delimited_takes src l i e)
          λ r taken. omega arith)
      λ _.
        Yields-if Q (field == 2) _ _
          (λ _. Yields-fail_if Q (not (t == 2)) _ _ λ _.
            Yields->>= (TakesBytes src i) Q (read_delimited l src i) _
              (read_delimited_takes src l i e) λ r taken. omega arith)
          λ _.
            Yields-if Q (field == 3) _ _
              (λ _. Yields-fail_if Q (not (t == 0)) _ _ λ _.
                Yields->>= (TakesValue src i) Q (read_varint src i) _ (read_varint_takes src i)
                  λ r taken. omega arith)
              λ _. tt

module _ (r : Runtime) (laws : RuntimeLaws r) where
  -- On every input of a length that an int holds, well formed or not, `unmarshal` comes back with parameters or with an error.
  pub params_unmarshal_returns :
      (discard : Bool) (src : Bytes) (x : Option Params)
      → length src < 2 ^ 63
      → Yields (λ _. Unit) (unmarshal r discard src x)
  unfolding unmarshal
  params_unmarshal_returns discard src x fits =
      read_fields_total r laws handle_field keep_unknown handle_field-IsTotal discard src x fits

  module _ (discard : Bool) (l : ℕ) (fits : l < 2 ^ 63) (fs : List WireField)
      (foreign : AreForeign r.skip handle_field fs) where
    abbrev keep : Bytes → Params → Params
    keep = keep_in (λ m. m.unknown_fields) with_unknown discard

    abbrev Reads : Bytes → ℕ → Params → Params → Type 0
    Reads = Decodes r.skip keep handle_field l

    Reads-enabled :
        (b : Bool) (i : ℕ) (m : Params)
        → m.mint_enabled ≡ false
        → i + length (enabled_bytes b ++ fields_bytes fs) ≤ l
        → Reads
            (enabled_bytes b ++ fields_bytes fs)
            i
            m
            (keep_all keep fs (record m { mint_enabled = b }))
    unfolding handle_field
    Reads-enabled false i m e room =
        let same : (record m { mint_enabled = false }) ≡ m = rw (sym e) in
        rw same (Decodes-foreign r.skip keep handle_field l fits fs i m foreign (omega arith))
    Reads-enabled true i m e room =
        Decodes-field r.skip keep handle_field l 0x18 i (i + 1 + 1) m
          (record m { mint_enabled = true }) _ (1 ∷ fields_bytes fs) (fields_bytes fs) (omega arith)
          (omega arith) (omega arith) (omega arith)
          (rw (read_small 1 (i + 1) (fields_bytes fs) (omega arith)))
          (Decodes-foreign r.skip keep handle_field l fits fs (i + 1 + 1)
            (record m { mint_enabled = true }) foreign (omega arith))

    Reads-message :
        (m : Params)
        → contents m.unknown_fields ≡ fields_bytes fs
        → length (encode m) ≡ l
        → Reads (encode m) 0 zero_params (keep_all keep fs (record m { unknown_fields = none }))
    unfolding handle_field zero_params
    Reads-message m known e =
        let d = text_bytes 0xa m.mint_denom in
        let a = text_bytes 0x12 m.mint_amount in
        let tail = enabled_bytes m.mint_enabled ++ fields_bytes fs in
        let total : length (d ++ (a ++ tail)) ≡ l = rw known at e in
        let end' = keep_all keep fs (record m { unknown_fields = none }) in
        rw known (
          Decodes-text r.skip keep handle_field l fits 0xa (λ s x. record x { mint_denom = s })
            (omega arith) (omega arith) (omega arith) (λ x src j. refl) m.mint_denom 0 zero_params
            end' (a ++ tail) refl (omega (arith, length-append d (a ++ tail)))
            (Decodes-text r.skip keep handle_field l fits 0x12 (λ s x. record x { mint_amount = s })
              (omega arith) (omega arith) (omega arith) (λ x src j. refl) m.mint_amount
              (0 + length d) (record zero_params { mint_denom = m.mint_denom }) end' tail refl
              (omega (arith, length-append d (a ++ tail), length-append a tail))
              (Reads-enabled m.mint_enabled (0 + length d + length a)
                (record zero_params { mint_denom = m.mint_denom; mint_amount = m.mint_amount }) refl
                (omega (arith, length-append d (a ++ tail), length-append a tail)))))

  -- The encoding of parameters is read back into the zero value, with the unknown fields unless they
  -- are to be discarded.
  pub unmarshal-encode :
      (m : Params) (discard : Bool) (fs : List WireField)
      → contents m.unknown_fields ≡ fields_bytes fs
      → AreForeign r.skip handle_field fs
      → FitsInt m
      → unmarshal r discard (encode m) (some zero_params)
        ≡ ok (some (record m { unknown_fields = kept discard fs }))
  unfolding unmarshal read_fields unmarshal_into
  unmarshal-encode m discard fs known foreign h =
      let bare : Params = record m { unknown_fields = none } in
      let same =
        keep_all-kept (λ (x : Params). x.unknown_fields) with_unknown (λ x. refl) (λ u x. refl)
          (λ u v x. refl) discard fs bare refl in
      let done =
        Reads-message discard (length (encode m)) h fs foreign m known refl (length (encode m))
          (omega arith) in
      rw done (ap (λ (x : Params). ok (some x)) same)

  -- Parameters of a length that an int holds, whose unknown fields are foreign ones, are read back from
  -- what `marshal` wrote as they were, with their unknown fields, or without where those are discarded.
  pub params_unmarshal-marshal :
      (m : Params) (discard : Bool) (fs : List WireField)
      → contents m.unknown_fields ≡ fields_bytes fs
      → AreForeign r.skip handle_field fs
      → FitsInt m
      → (marshal r (some m) none >>= λ out. unmarshal r discard (contents out) (some zero_params))
        ≡ ok (some (record m { unknown_fields = kept discard fs }))
  unfolding appended
  params_unmarshal-marshal m discard fs known foreign h =
      rw (marshal_lem r laws m none h) (unmarshal-encode m discard fs known foreign h)
