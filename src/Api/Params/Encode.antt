-- ===== src/Api/Params/Encode.antt =====
-- What `marshal` of `Params` writes, and that `size` counts it.
use bluechip_chain_official.Prelude.{
  ◌+◌, ◌^◌, ◌<◌, ◌≡◌, refl, ◌∙◌, subst, arith, Bool, true, false, Option, some, Bytes, [], ◌∷◌,
  ◌++◌, ok, if◌then◌else◌, length, length-append, append_assoc,
}
use bluechip_chain_official.Wire.Buffer.{put_byte}
use bluechip_chain_official.Wire.Buffer.Writes.{Writes, Writes-then, put_byte-Writes}
use bluechip_chain_official.Fixedmint.Params.Codec.Encode.{enabled_bytes}
use bluechip_chain_official.Api.Runtime.{Runtime, RuntimeLaws, contents}
use bluechip_chain_official.Api.Buffer.{put_unknown, appended, put_text}
use bluechip_chain_official.Api.Buffer.Writes.{
  text_bytes, text_fits, Writes-nothing, put_unknown-Writes, unknown_size-length, filled_lem,
  put_text-Writes, text_size-length,
}
use bluechip_chain_official.Api.Params.{Params, size, put_enabled, put_fields, marshal}

-- The fields in the order of their numbers, those that are populated, then the unknown ones.
abbrev pub encode : Params → Bytes
encode m =
    text_bytes 0xa m.mint_denom
    ++ (text_bytes 0x12 m.mint_amount
        ++ (enabled_bytes m.mint_enabled ++ contents m.unknown_fields))

-- A length that an int holds.
abbrev pub FitsInt : Params → Type 0
FitsInt m = length (encode m) < 2 ^ 63

parts_length :
    (m : Params)
    → length (encode m)
      ≡ length (text_bytes 0xa m.mint_denom)
        + length (text_bytes 0x12 m.mint_amount)
        + length (enabled_bytes m.mint_enabled)
        + length (contents m.unknown_fields)
parts_length m =
    let u = contents m.unknown_fields in
    let e = enabled_bytes m.mint_enabled in
    let a = text_bytes 0x12 m.mint_amount in
    omega (
      arith,
      length-append (text_bytes 0xa m.mint_denom) (a ++ (e ++ u)),
      length-append a (e ++ u),
      length-append e u,
    )

pub texts_fit :
    (m : Params) → FitsInt m → (length m.mint_denom < 2 ^ 63) × (length m.mint_amount < 2 ^ 63)
texts_fit m h =
    omega (arith, parts_length m, text_fits 0xa m.mint_denom, text_fits 0x12 m.mint_amount)

put_enabled-Writes : (b : Bool) → Writes (put_enabled b) (enabled_bytes b)
unfolding put_enabled
put_enabled-Writes true =
    Writes-then (put_byte 1) (put_byte 0x18) (1 ∷ []) (0x18 ∷ []) (put_byte-Writes 1)
      (put_byte-Writes 0x18)
put_enabled-Writes false = Writes-nothing

enabled_size : (b : Bool) → (if b then 2 else 0) ≡ length (enabled_bytes b)
enabled_size true = refl
enabled_size false = refl

module _ (r : Runtime) (laws : RuntimeLaws r) where
  put_fields-Writes : (m : Params) → FitsInt m → Writes (put_fields r m) (encode m)
  unfolding put_fields
  put_fields-Writes m h =
      let (denom, amount) = texts_fit m h in
      let d = text_bytes 0xa m.mint_denom in
      let a = text_bytes 0x12 m.mint_amount in
      let e = enabled_bytes m.mint_enabled in
      let u = contents m.unknown_fields in
      subst (Writes (put_fields r m)) (append_assoc (d ++ a) e u ∙ append_assoc d a (e ++ u)) (
        Writes-then (put_unknown m.unknown_fields) _ u ((d ++ a) ++ e)
          (put_unknown-Writes m.unknown_fields)
          (Writes-then (put_enabled m.mint_enabled) _ e (d ++ a) (put_enabled-Writes m.mint_enabled)
            (Writes-then (put_text r 0x12 m.mint_amount) (put_text r 0xa m.mint_denom) a d
              (put_text-Writes r laws 0x12 m.mint_amount amount)
              (put_text-Writes r laws 0xa m.mint_denom denom))))

  -- `size` is the length of what is written.
  pub size-length : (m : Params) → FitsInt m → size r (some m) ≡ length (encode m)
  unfolding size
  size-length m h =
      let (denom, amount) = texts_fit m h in
      omega (
        arith,
        parts_length m,
        text_size-length r laws 0xa m.mint_denom denom,
        text_size-length r laws 0x12 m.mint_amount amount,
        enabled_size m.mint_enabled,
        unknown_size-length m.unknown_fields,
      )

  -- `marshal` appends the encoding of a message that is not nil to the caller's buffer.
  pub marshal_lem :
      (m : Params) (buf : Option Bytes)
      → FitsInt m
      → marshal r (some m) buf ≡ ok (appended buf (encode m))
  unfolding marshal
  marshal_lem m buf h =
      filled_lem (put_fields r m) (encode m) _ buf (put_fields-Writes m h)
        (laws.options_size_lem (size r) (some m) ∙ size-length m h)
