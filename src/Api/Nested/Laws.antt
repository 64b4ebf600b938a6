-- ===== src/Api/Nested/Laws.antt =====
-- A field of parameters is written and read back.
use bluechip_chain_official.Prelude.{
  ℕ, ◌+◌, ◌/◌, ◌%◌, ◌^◌, ◌≤◌, ◌<◌, ◌≡◌, ◌≢◌, refl, sym, ◌∙◌, subst, arith, Bool, List, Option, none,
  some, Bytes, ◌++◌, ok, ◌>>=◌, length, length-append, Yields, Yields->>=,
}
use bluechip_chain_official.Wire.Leb.{varint}
use bluechip_chain_official.Wire.Buffer.Writes.{Writes}
use bluechip_chain_official.Wire.Read.{read_delimited}
use bluechip_chain_official.Wire.Read.Progress.{
  TakesValue, TakesBytes, Indexed, read_delimited_takes,
}
use bluechip_chain_official.Wire.Message.{Handler, next}
use bluechip_chain_official.Wire.Message.Fields.{nested_field, Decodes, Decodes-delimited}
use bluechip_chain_official.Api.Runtime.{Runtime, RuntimeLaws, contents}
use bluechip_chain_official.Api.Buffer.{appended, message_size, put_message}
use bluechip_chain_official.Api.Buffer.Writes.{
  message_bytes, Writes-nothing, put_block-Writes, length-delimited,
}
use bluechip_chain_official.Api.Buffer.Reads.{WireField, fields_bytes, AreForeign, kept}
use bluechip_chain_official.Api.Params.{Params, size, marshal, unmarshal, handle_field}
use bluechip_chain_official.Api.Params.Encode.{encode, FitsInt, marshal_lem, size-length}
use bluechip_chain_official.Api.Params.Decode.{params_unmarshal_returns, unmarshal-encode}
use bluechip_chain_official.Api.Nested.{allocated, read_params}

abbrev pub params_bytes : ℕ → Option Params → Bytes
params_bytes tag o = message_bytes encode tag o

-- The unknown fields of the parameters, where there are parameters.
abbrev pub HasForeign : Runtime → List WireField → Option Params → Type 0
HasForeign r fs none = Unit
HasForeign r fs (some p) =
    (contents p.unknown_fields ≡ fields_bytes fs) × AreForeign r.skip handle_field fs

-- What is read of the parameters: all of them, but for unknown fields that are discarded.
abbrev pub params_kept : Bool → List WireField → Option Params → Option Params
params_kept discard fs none = none
params_kept discard fs (some p) = some (record p { unknown_fields = kept discard fs })

fits_inside : (tag : ℕ) (p : Params) → length (params_bytes tag (some p)) < 2 ^ 63 → FitsInt p
fits_inside tag p h = omega (arith, length-append (varint (length (encode p))) (encode p))

module _ (r : Runtime) (laws : RuntimeLaws r) where
  pub put_params-Writes :
      (tag : ℕ) (o : Option Params)
      → length (params_bytes tag o) < 2 ^ 63
      → Writes (put_message r (size r) (marshal r) tag o) (params_bytes tag o)
  unfolding put_message
  put_params-Writes tag none h = Writes-nothing
  put_params-Writes tag (some p) h =
      let fits = fits_inside tag p h in
      let encoded : r.options_marshal (marshal r) (some p) ≡ ok (encode p) =
        laws.options_marshal_lem (marshal r) (some p)
        ∙ unfold appended in rw (marshal_lem r laws p none fits) in
      rw encoded (put_block-Writes r laws tag (encode p) (omega arith))

  pub params_size-length :
      (tag : ℕ) (o : Option Params)
      → length (params_bytes tag o) < 2 ^ 63
      → message_size r (size r) (marshal r) o ≡ length (params_bytes tag o)
  unfolding message_size
  params_size-length tag none h = refl
  params_size-length tag (some p) h =
      let fits = fits_inside tag p h in
      let width = laws.options_size_lem (size r) (some p) ∙ size-length r laws p fits in
      rw width (sym (length-delimited r laws tag (encode p) fits))

  pub read_params_takes :
      (discard : Bool) (l : ℕ) (src : Bytes) (i : ℕ) (o : Option Params)
      → Indexed l src i
      → Yields (TakesValue src i) (read_params r discard l src i o)
  unfolding read_params
  read_params_takes discard l src i o e =
      let Q : Option Params × ℕ × Bytes → Type 0 = TakesValue src i in
      Yields->>= (TakesBytes src i) Q (read_delimited l src i) _ (read_delimited_takes src l i e)
        λ x taken.
          Yields->>= (λ _. Unit) Q
            (r.options_unmarshal (unmarshal r) discard x.0 (some (allocated o))) _
            (rw (laws.options_unmarshal_lem (unmarshal r) discard x.0 (some (allocated o)))
              (params_unmarshal_returns r laws discard x.0 (some (allocated o)) (omega arith)))
            λ y _. omega arith

  module _ {M : Type 0} (keep : Bytes → M → M) (h : Handler M) (l : ℕ) (fits : l < 2 ^ 63)
      (discard : Bool) (tag : ℕ) (get : M → Option Params) (set : Option Params → M → M)
      (lo : 8 ≤ tag) (hi : tag < 128) (ne : tag % 8 ≢ 4)
      (handles : (m : M) (src : Bytes) (j : ℕ)
        → h (tag / 8) (tag % 8) l src j m
          ≡ (read_params r discard l src j (get m) >>= λ x. ok (next (set x.0 m) x.1 x.2))) where
    -- The field is read into a message whose parameters were nil.
    pub Decodes-params :
        (o : Option Params) (gs : List WireField) (i : ℕ) (m m'' : M) (rest : Bytes)
        → HasForeign r gs o
        → get m ≡ none
        → set none m ≡ m
        → i + length (params_bytes tag o) ≤ l
        → Decodes r.skip keep h l rest
            (i + length (params_bytes tag o))
            (set (params_kept discard gs o) m)
            m''
        → Decodes r.skip keep h l (params_bytes tag o ++ rest) i m m''
    unfolding read_params allocated
    Decodes-params none gs i m m'' rest foreign nil same room k =
        subst (λ (x : M). Decodes r.skip keep h l rest i x m'') same
          (subst (λ (j : ℕ). Decodes r.skip keep h l rest j (set none m) m'') (omega arith) k)
    Decodes-params (some p) gs i m m'' rest (known, foreign) nil same room k =
        let s = encode p in
        let read : r.options_unmarshal (unmarshal r) discard s (some (allocated (get m)))
            ≡ ok (params_kept discard gs (some p)) =
          laws.options_unmarshal_lem (unmarshal r) discard s (some (allocated (get m)))
          ∙ rw nil (
              unmarshal-encode r laws p discard gs known foreign
                (fits_inside tag p (omega arith))) in
        Decodes-delimited r.skip keep h l
          (λ t x. r.options_unmarshal (unmarshal r) discard t (some (allocated (get x))) >>= λ q.
            ok (set q x))
          tag s i m (set (params_kept discard gs (some p)) m) m'' rest
          (λ src j.
            handles m src j
            ∙ nested_field (read_delimited l src j)
                (λ t. r.options_unmarshal (unmarshal r) discard t (some (allocated (get m))))
                (λ q. set q m))
          lo hi ne fits room (rw read) k
