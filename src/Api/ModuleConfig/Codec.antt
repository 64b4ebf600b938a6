-- ===== src/Api/ModuleConfig/Codec.antt =====
-- `Module` on the wire: `marshal` writes it, and `unmarshal` reads it back.
use bluechip_chain_official.Prelude.{
  ℕ, ◌+◌, ◌^◌, ◌<◌, ◌≡◌, refl, ◌∙◌, ap, arith, Bool, not, List, Option, none, some, Bytes, ◌++◌, ok,
  ◌>>=◌, ◌==◌, length, length-append, Yields, Yields->>=, Yields-fail_if, Yields-if,
}
use bluechip_chain_official.Wire.Buffer.Writes.{Writes, Writes-then}
use bluechip_chain_official.Wire.Read.{read_delimited}
use bluechip_chain_official.Wire.Read.Progress.{TakesBytes, read_delimited_takes}
use bluechip_chain_official.Wire.Message.{Handled, unmarshal_into}
use bluechip_chain_official.Wire.Message.Total.{Keeps, IsTotal}
use bluechip_chain_official.Wire.Message.Fields.{Decodes}
use bluechip_chain_official.Api.Runtime.{Runtime, RuntimeLaws, contents}
use bluechip_chain_official.Api.Buffer.{put_unknown, appended, put_text, read_fields}
use bluechip_chain_official.Api.Buffer.Writes.{
  text_bytes, text_fits, put_unknown-Writes, unknown_size-length, filled_lem, put_text-Writes,
  text_size-length,
}
use bluechip_chain_official.Api.Buffer.Reads.{
  WireField, fields_bytes, AreForeign, keep_all, kept, keep_in, keep_all-kept, Decodes-foreign,
  Decodes-text, read_fields_total,
}
use bluechip_chain_official.Api.ModuleConfig.{
  Module, zero_module, with_unknown, keep_unknown, size, put_fields, handle_field, marshal,
  unmarshal,
}

-- The authority where it is not empty, then the unknown fields.
abbrev pub encode : Module → Bytes
encode m = text_bytes 0xa m.authority ++ contents m.unknown_fields

-- A length that an int holds.
abbrev pub FitsInt : Module → Type 0
FitsInt m = length (encode m) < 2 ^ 63

authority_fits : (m : Module) → FitsInt m → length m.authority < 2 ^ 63
authority_fits m h = omega (
  arith,
  length-append (text_bytes 0xa m.authority) (contents m.unknown_fields),
  text_fits 0xa m.authority,
)

handle_field-IsTotal : IsTotal handle_field
unfolding handle_field
handle_field-IsTotal field t l src i m e =
    let Q : Handled Module → Type 0 = Keeps src i in
    Yields-if Q (field == 1) _ _
      (λ _. Yields-fail_if Q (not (t == 2)) _ _ λ _.
        Yields->>= (TakesBytes src i) Q (read_delimited l src i) _ (read_delimited_takes src l i e)
          λ x taken. omega arith)
      λ _. tt

module _ (r : Runtime) (laws : RuntimeLaws r) where
  put_fields-Writes : (m : Module) → FitsInt m → Writes (put_fields r m) (encode m)
  unfolding put_fields
  put_fields-Writes m h =
      Writes-then (put_unknown m.unknown_fields) (put_text r 0xa m.authority)
        (contents m.unknown_fields) (text_bytes 0xa m.authority)
        (put_unknown-Writes m.unknown_fields)
        (put_text-Writes r laws 0xa m.authority (authority_fits m h))

  -- `size` is the length of what is written.
  pub size-length : (m : Module) → FitsInt m → size r (some m) ≡ length (encode m)
  unfolding size
  size-length m h = omega (
    arith,
    length-append (text_bytes 0xa m.authority) (contents m.unknown_fields),
    text_size-length r laws 0xa m.authority (authority_fits m h),
    unknown_size-length m.unknown_fields,
  )

  -- `marshal` appends the encoding of a message that is not nil to the caller's buffer.
  pub marshal_lem :
      (m : Module) (buf : Option Bytes)
      → FitsInt m
      → marshal r (some m) buf ≡ ok (appended buf (encode m))
  unfolding marshal
  marshal_lem m buf h =
      filled_lem (put_fields r m) (encode m) _ buf (put_fields-Writes m h)
        (laws.options_size_lem (size r) (some m) ∙ size-length m h)

  -- On every input of a length that an int holds, well formed or not, `unmarshal` comes back with a message or with an error.
  pub module_unmarshal_returns :
      (discard : Bool) (src : Bytes) (x : Option Module)
      → length src < 2 ^ 63
      → Yields (λ _. Unit) (unmarshal r discard src x)
  unfolding unmarshal
  module_unmarshal_returns discard src x fits =
      read_fields_total r laws handle_field keep_unknown handle_field-IsTotal discard src x fits

  module _ (discard : Bool) (l : ℕ) (fits : l < 2 ^ 63) (fs : List WireField)
      (foreign : AreForeign r.skip handle_field fs) where
    abbrev keep : Bytes → Module → Module
    keep = keep_in (λ m. m.unknown_fields) with_unknown discard

    Reads-message :
        (m : Module)
        → contents m.unknown_fields ≡ fields_bytes fs
        → length (encode m) ≡ l
        → Decodes r.skip keep handle_field l
            (encode m)
            0
            zero_module
            (keep_all keep fs (record m { unknown_fields = none }))
    unfolding handle_field zero_module
    Reads-message m known e =
        let a = text_bytes 0xa m.authority in
        let tail = fields_bytes fs in
        let total : length (a ++ tail) ≡ l = rw known at e in
        let bare : Module = record m { unknown_fields = none } in
        rw known (
          Decodes-text r.skip keep handle_field l fits 0xa (λ s x. record x { authority = s })
            (omega arith) (omega arith) (omega arith) (λ x src j. refl) m.authority 0 zero_module
            (keep_all keep fs bare) tail refl (omega (arith, length-append a tail))
            (Decodes-foreign r.skip keep handle_field l fits fs (0 + length a) bare foreign
              (omega (arith, length-append a tail))))

  -- A configuration of a length that an int holds, whose unknown fields are foreign ones, is read back
  -- from what `marshal` wrote as it was, with its unknown fields, or without where those are discarded.
  pub module_unmarshal-marshal :
      (m : Module) (discard : Bool) (fs : List WireField)
      → contents m.unknown_fields ≡ fields_bytes fs
      → AreForeign r.skip handle_field fs
      → FitsInt m
      → (marshal r (some m) none >>= λ out. unmarshal r discard (contents out) (some zero_module))
        ≡ ok (some (record m { unknown_fields = kept discard fs }))
  unfolding appended unmarshal read_fields unmarshal_into
  module_unmarshal-marshal m discard fs known foreign h =
      let l = length (encode m) in
      let done = Reads-message discard l h fs foreign m known refl l (omega arith) in
      let same =
        keep_all-kept (λ (x : Module). x.unknown_fields) with_unknown (λ x. refl) (λ u x. refl)
          (λ u v x. refl) discard fs (record m { unknown_fields = none }) refl in
      rw (marshal_lem m none h) (rw done (ap (λ (x : Module). ok (some x)) same))
