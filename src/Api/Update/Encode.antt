-- ===== src/Api/Update/Encode.antt =====
-- What `marshal` of `MsgUpdateParams` writes, and that `size` counts it.
use bluechip_chain_official.Prelude.{
  ◌+◌, ◌^◌, ◌<◌, ◌≡◌, ◌∙◌, subst, arith, Option, some, Bytes, ◌++◌, ok, length, length-append,
  append_assoc,
}
use bluechip_chain_official.Wire.Buffer.Writes.{Writes, Writes-then}
use bluechip_chain_official.Api.Runtime.{Runtime, RuntimeLaws, contents}
use bluechip_chain_official.Api.Buffer.{put_unknown, appended, put_text, put_message}
use bluechip_chain_official.Api.Buffer.Writes.{
  text_bytes, text_fits, put_unknown-Writes, unknown_size-length, filled_lem, put_text-Writes,
  text_size-length,
}
use bluechip_chain_official.Api.Params as Nested
use bluechip_chain_official.Api.Nested.Laws.{params_bytes, put_params-Writes, params_size-length}
use bluechip_chain_official.Api.Update.{MsgUpdateParams, size, put_fields, marshal}

-- The authority where it is not empty, the parameters where they are not nil, the unknown fields.
abbrev pub encode : MsgUpdateParams → Bytes
encode m = text_bytes 0xa m.authority ++ (params_bytes 0x12 m.params ++ contents m.unknown_fields)

-- A length that an int holds.
abbrev pub FitsInt : MsgUpdateParams → Type 0
FitsInt m = length (encode m) < 2 ^ 63

pub parts_length :
    (m : MsgUpdateParams)
    → length (encode m)
      ≡ length (text_bytes 0xa m.authority)
        + length (params_bytes 0x12 m.params)
        + length (contents m.unknown_fields)
parts_length m =
    let u = contents m.unknown_fields in
    let p = params_bytes 0x12 m.params in
    omega (arith, length-append (text_bytes 0xa m.authority) (p ++ u), length-append p u)

parts_fit :
    (m : MsgUpdateParams)
    → FitsInt m
    → (length m.authority < 2 ^ 63) × (length (params_bytes 0x12 m.params) < 2 ^ 63)
parts_fit m h = omega (arith, parts_length m, text_fits 0xa m.authority)

module _ (r : Runtime) (laws : RuntimeLaws r) where
  put_fields-Writes : (m : MsgUpdateParams) → FitsInt m → Writes (put_fields r m) (encode m)
  unfolding put_fields
  put_fields-Writes m h =
      let (authority, params) = parts_fit m h in
      let a = text_bytes 0xa m.authority in
      let p = params_bytes 0x12 m.params in
      let u = contents m.unknown_fields in
      subst (Writes (put_fields r m)) (append_assoc a p u) (
        Writes-then (put_unknown m.unknown_fields) _ u (a ++ p)
          (put_unknown-Writes m.unknown_fields)
          (Writes-then (put_message r (Nested.size r) (Nested.marshal r) 0x12 m.params)
            (put_text r 0xa m.authority) p a (put_params-Writes r laws 0x12 m.params params)
            (put_text-Writes r laws 0xa m.authority authority)))

  -- `size` is the length of what is written.
  pub size-length : (m : MsgUpdateParams) → FitsInt m → size r (some m) ≡ length (encode m)
  unfolding size
  size-length m h =
      let (authority, params) = parts_fit m h in
      omega (
        arith,
        parts_length m,
        text_size-length r laws 0xa m.authority authority,
        params_size-length r laws 0x12 m.params params,
        unknown_size-length m.unknown_fields,
      )

  -- `marshal` appends the encoding of a message that is not nil to the caller's buffer.
  pub marshal_lem :
      (m : MsgUpdateParams) (buf : Option Bytes)
      → FitsInt m
      → marshal r (some m) buf ≡ ok (appended buf (encode m))
  unfolding marshal
  marshal_lem m buf h =
      filled_lem (put_fields r m) (encode m) _ buf (put_fields-Writes m h)
        (laws.options_size_lem (size r) (some m) ∙ size-length m h)
