-- ===== src/Fixedmint/Params/Codec/Encode.antt =====
-- What `Marshal` writes, in plain terms, and that `Size` is its length.
use bluechip_chain_official.Prelude.{
  ℕ, ◌-◌, ◌^◌, ◌≤◌, ◌<◌, ◌≡◌, refl, sym, ◌∙◌, ap, subst, arith, Bool, true, false, Bytes, [], ◌∷◌,
  ◌++◌, ok, ◌>>=◌, ltb, if◌then◌else◌, length, replicate, length-append, length-replicate, take_all,
  take-append, drop-append, append_assoc, append-nil,
}
use bluechip_chain_official.MathInt.{MathInt, MathIntLaws}
use bluechip_chain_official.Fixedmint.Params.{Params}
use bluechip_chain_official.Fixedmint.Params.Codec.{
  size, put_int, put_enabled, put_amount, put_denom, put_fields, marshal_to_sized_buffer, marshal,
}
use bluechip_chain_official.Wire.Leb.{varint, delimited, string_bytes}
use bluechip_chain_official.Wire.Varint.Width.{sov-length, length-string_bytes, string_fits}
use bluechip_chain_official.Wire.Buffer.{put_byte, put_string, put_varint}
use bluechip_chain_official.Wire.Buffer.Writes.{
  delimited-Writes, Writes, Writes-then, Writes-if, put_byte-Writes, put_varint-Writes,
}

abbrev pub enabled_bytes : Bool → Bytes
enabled_bytes b = if b then 0x18 ∷ 1 ∷ [] else []

Writes-none : Writes ok []
Writes-none front [] back e = rw append-nil
Writes-none front (x ∷ junk) back e = absurd (omega arith)

enabled-Writes :
    (b : Bool)
    → Writes
        (λ c. if b then (put_byte (if b then 1 else 0) c >>= put_byte 0x18) else ok c)
        (enabled_bytes b)
enabled-Writes true =
    Writes-then (put_byte 1) (put_byte 0x18) (1 ∷ []) (0x18 ∷ []) (put_byte-Writes 1)
      (put_byte-Writes 0x18)
enabled-Writes false = Writes-none

module _ (n : MathInt) (laws : MathIntLaws n) where
  open laws use {encoding, size-encoding, marshal_to_lem}
  open n use {Int}

  -- The fields in the order of their numbers; an empty denom and a false flag are left out.
  abbrev pub encode : Params Int → Bytes
  encode m =
      string_bytes m.mint_denom
      ++ (delimited 0x12 (encoding m.mint_amount) ++ enabled_bytes m.mint_enabled)

  put_int-Writes : (x : Int) → Writes (put_int n x) (encoding x)
  unfolding put_int
  put_int-Writes x front junk back e =
      let width : n.size x ≡ length junk = size-encoding x ∙ sym e in
      let base : length (front ++ junk) - n.size x ≡ length front =
        omega (arith, length-append front junk) in
      let room : ltb (length (front ++ junk)) (n.size x) ≡ false =
        ground (arith, length-append front junk) in
      let fits : n.size x ≤ length (junk ++ back) = omega (arith, length-append junk back) in
      rw (
        room,
        base,
        append_assoc front junk back,
        take-append front (junk ++ back),
        drop-append front (junk ++ back),
        marshal_to_lem x (junk ++ back) fits,
        width,
        drop-append junk back,
      )

  amount-Writes :
      (m : Params Int)
      → length (encoding m.mint_amount) < 2 ^ 64
      → Writes (put_amount n m) (delimited 0x12 (encoding m.mint_amount))
  unfolding put_amount
  amount-Writes m h =
      let x = m.mint_amount in
      let width : ℕ = length (encoding x) in
      subst
        (λ (k : ℕ).
          Writes (λ c. put_int n x c >>= λ c'. put_varint k c' >>= put_byte 0x12)
            (delimited 0x12 (encoding x)))
        (sym (size-encoding x))
        (Writes-then (put_int n x) (λ c. put_varint width c >>= put_byte 0x12) (encoding x)
          (0x12 ∷ varint width) (put_int-Writes x)
          (Writes-then (put_varint width) (put_byte 0x12) (varint width) (0x12 ∷ [])
            (put_varint-Writes width h) (put_byte-Writes 0x12)))

  denom-Writes :
      (m : Params Int)
      → length m.mint_denom < 2 ^ 64
      → Writes (put_denom n m) (string_bytes m.mint_denom)
  unfolding put_denom
  denom-Writes m h =
      Writes-if
        (λ c.
          put_string m.mint_denom c >>= λ c'. put_varint (length m.mint_denom) c' >>= put_byte 0xa)
        (ltb 0 (length m.mint_denom)) (delimited 0xa m.mint_denom)
        (delimited-Writes 0xa m.mint_denom h)

  -- The sizes that the lengths of Go values keep within an int.
  abbrev pub FitsInt : Params Int → Type 0
  FitsInt m = length (encode m) < 2 ^ 63

  pub fields_fit :
      (m : Params Int)
      → FitsInt m
      → (length m.mint_denom < 2 ^ 63) × (length (encoding m.mint_amount) < 2 ^ 63)
  fields_fit m h = omega (
    arith,
    string_fits m.mint_denom,
    length-append (string_bytes m.mint_denom)
        (delimited 0x12 (encoding m.mint_amount) ++ enabled_bytes m.mint_enabled),
    length-append (delimited 0x12 (encoding m.mint_amount)) (enabled_bytes m.mint_enabled),
    length-append (varint (length (encoding m.mint_amount))) (encoding m.mint_amount),
  )

  pub put_fields-Writes : (m : Params Int) → FitsInt m → Writes (put_fields n m) (encode m)
  unfolding put_fields put_enabled
  put_fields-Writes m h =
      let (small_denom, small_amount) = fields_fit m h in
      subst (Writes (put_fields n m))
        (append_assoc (string_bytes m.mint_denom) (delimited 0x12 (encoding m.mint_amount))
          (enabled_bytes m.mint_enabled))
        (Writes-then (put_enabled n m) (λ c. put_amount n m c >>= put_denom n m)
          (enabled_bytes m.mint_enabled)
          (string_bytes m.mint_denom ++ delimited 0x12 (encoding m.mint_amount))
          (enabled-Writes m.mint_enabled)
          (Writes-then (put_amount n m) (put_denom n m) (delimited 0x12 (encoding m.mint_amount))
            (string_bytes m.mint_denom) (amount-Writes m (omega arith))
            (denom-Writes m (omega arith))))

  length-enabled_bytes : (b : Bool) → length (enabled_bytes b) ≡ (if b then 2 else 0)
  length-enabled_bytes true = refl
  length-enabled_bytes false = refl

  -- `Size` is the length of what is written.
  pub size-length : (m : Params Int) → FitsInt m → size n m ≡ length (encode m)
  unfolding size
  size-length m h =
      let (small_denom, small_amount) = fields_fit m h in
      rw
        (
          size-encoding m.mint_amount,
          ← length-string_bytes m.mint_denom small_denom,
          ← length-enabled_bytes m.mint_enabled,
        )
        (omega (
          arith,
          sov-length (length (encoding m.mint_amount)) (omega arith),
          length-append (string_bytes m.mint_denom)
              (delimited 0x12 (encoding m.mint_amount) ++ enabled_bytes m.mint_enabled),
          length-append (delimited 0x12 (encoding m.mint_amount)) (enabled_bytes m.mint_enabled),
          length-append (varint (length (encoding m.mint_amount))) (encoding m.mint_amount),
        ))

  -- In a slice with room at its end for the message, `MarshalToSizedBuffer` writes it there, counts
  -- its bytes, and changes nothing in front of it.
  pub marshal_to_sized_buffer_lem :
      (m : Params Int) (front junk : Bytes)
      → FitsInt m
      → length junk ≡ size n m
      → marshal_to_sized_buffer n m (front ++ junk) ≡ ok (front ++ encode m, size n m)
  unfolding marshal_to_sized_buffer
  marshal_to_sized_buffer_lem m front junk h e =
      let start =
        rw (append-nil (front ++ junk), append-nil (encode m)) at
          (put_fields-Writes m h front junk [] (e ∙ size-length m h)) in
      let count : length (front ++ encode m) - length front ≡ size n m =
        omega (arith, length-append front (encode m), size-length m h) in
      rw start (ap (λ (k : ℕ). ok (front ++ encode m, k)) count)

  -- `Marshal` comes back with the encoding.
  pub marshal_lem : (m : Params Int) → FitsInt m → marshal n m ≡ ok (encode m)
  unfolding marshal
  marshal_lem m h =
      rw
        (marshal_to_sized_buffer_lem m [] (replicate (size n m) 0) h
          (length-replicate (size n m) 0))
        (rw (size-length m h) (ap ok (take_all (encode m))))
