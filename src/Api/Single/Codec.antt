-- ===== src/Api/Single/Codec.antt =====
-- A message with the parameters alone is written, and read back.
use bluechip_chain_official.Prelude.{
  ℕ, ◌+◌, ◌^◌, ◌<◌, ◌≡◌, refl, ◌∙◌, ap, arith, Bool, not, List, Option, none, some, Bytes, ◌++◌, ok,
  ◌>>=◌, ◌==◌, length, length-append, Yields, Yields->>=, Yields-fail_if, Yields-if,
}
use bluechip_chain_official.Wire.Buffer.Writes.{Writes, Writes-then}
use bluechip_chain_official.Wire.Read.Progress.{TakesValue}
use bluechip_chain_official.Wire.Message.{Handled, unmarshal_into}
use bluechip_chain_official.Wire.Message.Total.{Keeps, IsTotal}
use bluechip_chain_official.Wire.Message.Fields.{Decodes}
use bluechip_chain_official.Api.Runtime.{Runtime, RuntimeLaws, contents}
use bluechip_chain_official.Api.Buffer.{put_unknown, appended, put_message, read_fields}
use bluechip_chain_official.Api.Buffer.Writes.{put_unknown-Writes, unknown_size-length, filled_lem}
use bluechip_chain_official.Api.Buffer.Reads.{
  WireField, fields_bytes, AreForeign, keep_all, kept, keep_in, keep_all-kept, Decodes-foreign,
  read_fields_total,
}
use bluechip_chain_official.Api.Params as Nested
use bluechip_chain_official.Api.Nested.{read_params}
use bluechip_chain_official.Api.Nested.Laws.{
  params_bytes, HasForeign, params_kept, put_params-Writes, params_size-length, read_params_takes,
  Decodes-params,
}
use bluechip_chain_official.Api.Single.{
  Single, zero_single, with_unknown, keep_unknown, single_size, put_fields, handle_field,
  single_marshal, single_unmarshal,
}

-- The parameters where they are not nil, then the unknown fields.
abbrev pub encode : Single → Bytes
encode m = params_bytes 0xa m.params ++ contents m.unknown_fields

-- A length that an int holds.
abbrev pub FitsInt : Single → Type 0
FitsInt m = length (encode m) < 2 ^ 63

params_fit : (m : Single) → FitsInt m → length (params_bytes 0xa m.params) < 2 ^ 63
params_fit m h =
    omega (arith, length-append (params_bytes 0xa m.params) (contents m.unknown_fields))

module _ (r : Runtime) (laws : RuntimeLaws r) where
  put_fields-Writes : (m : Single) → FitsInt m → Writes (put_fields r m) (encode m)
  unfolding put_fields
  put_fields-Writes m h =
      Writes-then (put_unknown m.unknown_fields)
        (put_message r (Nested.size r) (Nested.marshal r) 0xa m.params) (contents m.unknown_fields)
        (params_bytes 0xa m.params) (put_unknown-Writes m.unknown_fields)
        (put_params-Writes r laws 0xa m.params (params_fit m h))

  pub single_size-length : (m : Single) → FitsInt m → single_size r (some m) ≡ length (encode m)
  unfolding single_size
  single_size-length m h = omega (
    arith,
    length-append (params_bytes 0xa m.params) (contents m.unknown_fields),
    params_size-length r laws 0xa m.params (params_fit m h),
    unknown_size-length m.unknown_fields,
  )

  pub single_marshal_lem :
      (m : Single) (buf : Option Bytes)
      → FitsInt m
      → single_marshal r (some m) buf ≡ ok (appended buf (encode m))
  unfolding single_marshal
  single_marshal_lem m buf h =
      filled_lem (put_fields r m) (encode m) _ buf (put_fields-Writes m h)
        (laws.options_size_lem (single_size r) (some m) ∙ single_size-length m h)

  handle_field-IsTotal : (discard : Bool) → IsTotal (handle_field r discard)
  unfolding handle_field
  handle_field-IsTotal discard field t l src i m e =
      let Q : Handled Single → Type 0 = Keeps src i in
      Yields-if Q (field == 1) _ _
        (λ _. Yields-fail_if Q (not (t == 2)) _ _ λ _.
          Yields->>= (TakesValue src i) Q (read_params r discard l src i m.params) _
            (read_params_takes r laws discard l src i m.params e) λ x taken. omega arith)
        λ _. tt

  pub single_unmarshal_returns :
      (discard : Bool) (src : Bytes) (x : Option Single)
      → length src < 2 ^ 63
      → Yields (λ _. Unit) (single_unmarshal r discard src x)
  unfolding single_unmarshal
  single_unmarshal_returns discard src x fits =
      read_fields_total r laws (handle_field r discard) keep_unknown (handle_field-IsTotal discard)
        discard src x fits

  module _ (discard : Bool) (l : ℕ) (fits : l < 2 ^ 63) (fs gs : List WireField)
      (foreign : AreForeign r.skip (handle_field r discard) fs) where
    abbrev keep : Bytes → Single → Single
    keep = keep_in (λ m. m.unknown_fields) with_unknown discard

    -- The message, but for the unknown fields that come last.
    abbrev known_part : Single → Single
    known_part m = record { params = params_kept discard gs m.params; unknown_fields = none }

    Reads-message :
        (m : Single)
        → contents m.unknown_fields ≡ fields_bytes fs
        → HasForeign r gs m.params
        → length (encode m) ≡ l
        → Decodes r.skip keep
            (handle_field r discard)
            l
            (encode m)
            0
            zero_single
            (keep_all keep fs (known_part m))
    unfolding handle_field zero_single
    Reads-message m known inner e =
        let p = params_bytes 0xa m.params in
        let tail = fields_bytes fs in
        let total : length (p ++ tail) ≡ l = rw known at e in
        let h = handle_field r discard in
        rw known (
          Decodes-params r laws keep h l fits discard 0xa (λ x. x.params)
            (λ o x. record x { params = o }) (omega arith) (omega arith) (omega arith)
            (λ x src j. refl) m.params gs 0 zero_single (keep_all keep fs (known_part m)) tail inner
            refl refl (omega (arith, length-append p tail))
            (Decodes-foreign r.skip keep h l fits fs (0 + length p) (known_part m) foreign
              (omega (arith, length-append p tail))))

  pub single_unmarshal-single_marshal :
      (m : Single) (discard : Bool) (fs gs : List WireField)
      → contents m.unknown_fields ≡ fields_bytes fs
      → AreForeign r.skip (handle_field r discard) fs
      → HasForeign r gs m.params
      → FitsInt m
      → (single_marshal r (some m) none >>= λ out.
          single_unmarshal r discard (contents out) (some zero_single))
        ≡ ok (
            some (record {
              params = params_kept discard gs m.params;
              unknown_fields = kept discard fs;
            }))
  unfolding appended single_unmarshal read_fields unmarshal_into
  single_unmarshal-single_marshal m discard fs gs known foreign inner h =
      let l = length (encode m) in
      let done = Reads-message discard l h fs gs foreign m known inner refl l (omega arith) in
      let same =
        keep_all-kept (λ (x : Single). x.unknown_fields) with_unknown (λ x. refl) (λ u x. refl)
          (λ u v x. refl) discard fs (known_part discard l h fs gs foreign m) refl in
      rw (single_marshal_lem m none h) (rw done (ap (λ (x : Single). ok (some x)) same))
