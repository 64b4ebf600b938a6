-- ===== src/Api/Update/Decode.antt =====
-- `unmarshal` of `MsgUpdateParams` comes back on every input, and reads back what `marshal` wrote.
use bluechip_chain_official.Prelude.{
  ℕ, ◌+◌, ◌^◌, ◌<◌, ◌≡◌, refl, ap, arith, Bool, not, List, Option, none, some, Bytes, ◌++◌, ok,
  ◌>>=◌, ◌==◌, length, length-append, Yields, Yields->>=, Yields-fail_if, Yields-if,
}
use bluechip_chain_official.Wire.Read.{read_delimited}
use bluechip_chain_official.Wire.Read.Progress.{TakesValue, TakesBytes, read_delimited_takes}
use bluechip_chain_official.Wire.Message.{Handled, unmarshal_into}
use bluechip_chain_official.Wire.Message.Total.{Keeps, IsTotal}
use bluechip_chain_official.Wire.Message.Fields.{Decodes}
use bluechip_chain_official.Api.Runtime.{Runtime, RuntimeLaws, contents}
use bluechip_chain_official.Api.Buffer.{appended, read_fields}
use bluechip_chain_official.Api.Buffer.Writes.{text_bytes}
use bluechip_chain_official.Api.Buffer.Reads.{
  WireField, fields_bytes, AreForeign, keep_all, kept, keep_in, keep_all-kept, Decodes-foreign,
  Decodes-text, read_fields_total,
}
use bluechip_chain_official.Api.Nested.{read_params}
use bluechip_chain_official.Api.Nested.Laws.{
  params_bytes, HasForeign, params_kept, read_params_takes, Decodes-params,
}
use bluechip_chain_official.Api.Update.{
  MsgUpdateParams, zero_msg, with_unknown, keep_unknown, handle_field, marshal, unmarshal,
}
use bluechip_chain_official.Api.Update.Encode.{encode, FitsInt, marshal_lem}

module _ (r : Runtime) (laws : RuntimeLaws r) where
  handle_field-IsTotal : (discard : Bool) → IsTotal (handle_field r discard)
  unfolding handle_field
  handle_field-IsTotal discard field t l src i m e =
      let Q : Handled MsgUpdateParams → Type 0 = Keeps src i in
      Yields-if Q (field == 1) _ _
        (λ _. Yields-fail_if Q (not (t == 2)) _ _ λ _.
          Yields->>= (TakesBytes src i) Q (read_delimited l src i) _
            (read_delimited_takes src l i e) λ x taken. omega arith)
        λ _.
          Yields-if Q (field == 2) _ _
            (λ _. Yields-fail_if Q (not (t == 2)) _ _ λ _.
              Yields->>= (TakesValue src i) Q (read_params r discard l src i m.params) _
                (read_params_takes r laws discard l src i m.params e) λ x taken. omega arith)
            λ _. tt

  -- On every input of a length that an int holds, well formed or not, `unmarshal` comes back with a message or with an error.
  pub update_unmarshal_returns :
      (discard : Bool) (src : Bytes) (x : Option MsgUpdateParams)
      → length src < 2 ^ 63
      → Yields (λ _. Unit) (unmarshal r discard src x)
  unfolding unmarshal
  update_unmarshal_returns discard src x fits =
      read_fields_total r laws (handle_field r discard) keep_unknown (handle_field-IsTotal discard)
        discard src x fits

  module _ (discard : Bool) (l : ℕ) (fits : l < 2 ^ 63) (fs gs : List WireField)
      (foreign : AreForeign r.skip (handle_field r discard) fs) where
    abbrev keep : Bytes → MsgUpdateParams → MsgUpdateParams
    keep = keep_in (λ m. m.unknown_fields) with_unknown discard

    -- The message, but for the unknown fields that come last.
    abbrev known_part : MsgUpdateParams → MsgUpdateParams
    known_part m = record {
      authority = m.authority;
      params = params_kept discard gs m.params;
      unknown_fields = none;
    }

    Reads-message :
        (m : MsgUpdateParams)
        → contents m.unknown_fields ≡ fields_bytes fs
        → HasForeign r gs m.params
        → length (encode m) ≡ l
        → Decodes r.skip keep
            (handle_field r discard)
            l
            (encode m)
            0
            zero_msg
            (keep_all keep fs (known_part m))
    unfolding handle_field zero_msg
    Reads-message m known inner e =
        let a = text_bytes 0xa m.authority in
        let p = params_bytes 0x12 m.params in
        let tail = fields_bytes fs in
        let total : length (a ++ (p ++ tail)) ≡ l = rw known at e in
        let h = handle_field r discard in
        let end' = keep_all keep fs (known_part m) in
        let bare : MsgUpdateParams = record zero_msg { authority = m.authority } in
        rw known (
          Decodes-text r.skip keep h l fits 0xa (λ s x. record x { authority = s }) (omega arith)
            (omega arith) (omega arith) (λ x src j. refl) m.authority 0 zero_msg end' (p ++ tail)
            refl (omega (arith, length-append a (p ++ tail)))
            (Decodes-params r laws keep h l fits discard 0x12 (λ x. x.params)
              (λ o x. record x { params = o }) (omega arith) (omega arith) (omega arith)
              (λ x src j. refl) m.params gs (0 + length a) bare end' tail inner refl refl
              (omega (arith, length-append a (p ++ tail), length-append p tail))
              (Decodes-foreign r.skip keep h l fits fs (0 + length a + length p)
                (record bare { params = params_kept discard gs m.params }) foreign
                (omega (arith, length-append a (p ++ tail), length-append p tail)))))

  -- A message of a length that an int holds, whose unknown fields, and those of its parameters, are
  -- foreign ones, is read back from what `marshal` wrote as it was, with the unknown fields, or without
  -- where those are discarded.
  pub update_unmarshal-marshal :
      (m : MsgUpdateParams) (discard : Bool) (fs gs : List WireField)
      → contents m.unknown_fields ≡ fields_bytes fs
      → AreForeign r.skip (handle_field r discard) fs
      → HasForeign r gs m.params
      → FitsInt m
      → (marshal r (some m) none >>= λ out. unmarshal r discard (contents out) (some zero_msg))
        ≡ ok (
            some (record {
              authority = m.authority;
              params = params_kept discard gs m.params;
              unknown_fields = kept discard fs;
            }))
  unfolding appended unmarshal read_fields unmarshal_into
  update_unmarshal-marshal m discard fs gs known foreign inner h =
      let l = length (encode m) in
      let done = Reads-message discard l h fs gs foreign m known inner refl l (omega arith) in
      let same =
        keep_all-kept (λ (x : MsgUpdateParams). x.unknown_fields) with_unknown (λ x. refl)
          (λ u x. refl) (λ u v x. refl) discard fs (known_part discard l h fs gs foreign m) refl in
      rw (marshal_lem r laws m none h) (rw done (ap (λ (x : MsgUpdateParams). ok (some x)) same))
