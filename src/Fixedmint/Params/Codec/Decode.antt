-- ===== src/Fixedmint/Params/Codec/Decode.antt =====
-- `Unmarshal` comes back on every input, and reads back what `Marshal` wrote.
use bluechip_chain_official.Prelude.{
  ℕ, ◌+◌, ◌^◌, ◌≤◌, ◌<◌, ◌≡◌, refl, ◌∙◌, ap, arith, Bool, true, false, not, Bytes, [], ◌∷◌, ◌++◌,
  some, ok, ◌>>=◌, ltb, ◌==◌, if◌then◌else◌, length, length-append, append_assoc, Yields,
  Yields->>=, Yields-fail_if, Yields-if,
}
use bluechip_chain_official.MathInt.{ℤ, MathInt, MathIntLaws}
use bluechip_chain_official.Fixedmint.Params.{Params, zero_params}
use bluechip_chain_official.Fixedmint.Params.Codec.{handle_field, unmarshal, marshal}
use bluechip_chain_official.Fixedmint.Params.Codec.Encode.{
  enabled_bytes, encode, FitsInt, marshal_lem,
}
use bluechip_chain_official.Wire.Leb.{varint, delimited}
use bluechip_chain_official.Wire.Read.{read_varint, read_delimited, skip}
use bluechip_chain_official.Wire.Read.Decode.{read_delimited-varint}
use bluechip_chain_official.Wire.Read.Progress.{
  TakesValue, TakesBytes, read_varint_takes, read_delimited_takes, skip_moves,
}
use bluechip_chain_official.Wire.Message.{dropped, Handled, unmarshal_into}
use bluechip_chain_official.Wire.Message.Total.{Keeps, IsTotal, unmarshal_into_total}
use bluechip_chain_official.Wire.Message.Fields.{read_small, Decodes, Decodes-end, Decodes-field}

denom_kept : (s : Bytes) → (if ltb 0 (length s) then s else []) ≡ s
denom_kept [] = refl
denom_kept (c ∷ s) = ground arith

enabled_kept : (b : Bool) → (if b then true else false) ≡ b
enabled_kept true = refl
enabled_kept false = refl

module _ (n : MathInt) (laws : MathIntLaws n) where
  open laws use {value, encoding, unmarshal_total, unmarshal-encoding}
  open n use {Int}

  handle_field-IsTotal : IsTotal (handle_field n)
  unfolding handle_field
  handle_field-IsTotal field t l src i m e =
      let Q : Handled (Params Int) → Type 0 = Keeps src i in
      Yields-if Q (field == 1) _ _
        (λ _. Yields-fail_if Q (not (t == 2)) _ _ λ _.
          Yields->>= (TakesBytes src i) Q (read_delimited l src i) _
            (read_delimited_takes src l i e) λ r taken. omega arith)
        λ _.
          Yields-if Q (field == 2) _ _
            (λ _. Yields-fail_if Q (not (t == 2)) _ _ λ _.
              Yields->>= (TakesBytes src i) Q (read_delimited l src i) _
                (read_delimited_takes src l i e)
                λ r taken.
                  Yields->>= (λ _. Unit) Q (n.unmarshal m.mint_amount r.0) _
                    (unmarshal_total m.mint_amount r.0) λ x _. omega arith)
            λ _.
              Yields-if Q (field == 3) _ _
                (λ _. Yields-fail_if Q (not (t == 0)) _ _ λ _.
                  Yields->>= (TakesValue src i) Q (read_varint src i) _ (read_varint_takes src i)
                    λ r taken. omega arith)
                λ _. tt

  -- On every input of a length that an int holds, well formed or not, `Unmarshal` comes back with parameters or with an error.
  pub unmarshal_returns :
      (src : Bytes) (m : Params Int) → length src < 2 ^ 63 → Yields (λ _. Unit) (unmarshal n src m)
  unfolding unmarshal
  unmarshal_returns src m fits =
      unmarshal_into_total skip dropped (handle_field n) skip_moves handle_field-IsTotal src m fits

  -- The parameters `m` read into `m0`: an empty denom and a false flag were not written.
  abbrev pub merge : Params Int → Params Int → Params Int
  merge m0 m = record {
    mint_denom = if ltb 0 (length m.mint_denom) then m.mint_denom else m0.mint_denom;
    mint_amount = m.mint_amount;
    mint_enabled = if m.mint_enabled then true else m0.mint_enabled;
  }

  pub merge_zero : (m : Params Int) → merge (zero_params n) m ≡ m
  unfolding zero_params
  merge_zero m = rw (denom_kept m.mint_denom, enabled_kept m.mint_enabled)

  module _ (l : ℕ) (fits : l < 2 ^ 63) where
    abbrev Reads : Bytes → ℕ → Params Int → Params Int → Type 0
    Reads = Decodes skip dropped (handle_field n) l

    Reads-enabled :
        (b : Bool) (i : ℕ) (m : Params Int)
        → i + length (enabled_bytes b) ≤ l
        → Reads
            (enabled_bytes b)
            i
            m
            (record m { mint_enabled = if b then true else m.mint_enabled })
    unfolding handle_field
    Reads-enabled false i m h = Decodes-end skip dropped (handle_field n) l i m (omega arith)
    Reads-enabled true i m h =
        Decodes-field skip dropped (handle_field n) l 0x18 i (i + 1 + 1) m
          (record m { mint_enabled = true }) (record m { mint_enabled = true }) (1 ∷ []) []
          (omega arith) (omega arith) (omega arith) (omega arith)
          (rw (read_small 1 (i + 1) [] (omega arith)))
          (Decodes-end skip dropped (handle_field n) l (i + 1 + 1)
            (record m { mint_enabled = true }) (omega arith))

    Reads-amount :
        (x : Int) (z : ℤ) (i : ℕ) (m m' : Params Int) (rest : Bytes)
        → value x ≡ some z
        → i + length (delimited 0x12 (encoding x)) ≤ l
        → Reads rest (i + length (delimited 0x12 (encoding x))) (record m { mint_amount = x }) m'
        → Reads (delimited 0x12 (encoding x) ++ rest) i m m'
    unfolding handle_field
    Reads-amount x z i m m' rest v h k =
        let s = encoding x in
        let w : ℕ = length (varint (length s)) in
        let len : length (delimited 0x12 s) ≡ 1 + w + length s =
          omega (arith, length-append (varint (length s)) s) in
        let stop : i + length (delimited 0x12 s) ≡ i + 1 + w + length s = omega arith in
        rw (append_assoc (varint (length s)) s rest) (
          Decodes-field skip dropped (handle_field n) l 0x12 i (i + 1 + w + length s) m
            (record m { mint_amount = x }) m' (varint (length s) ++ (s ++ rest)) rest (omega arith)
            (omega arith) (omega arith)
            (omega (arith, length-append (varint (length s)) (s ++ rest), length-append s rest))
            (rw (read_delimited-varint s rest l (i + 1) fits (omega arith))
              (rw (unmarshal-encoding m.mint_amount x z v)))
            (rw stop at k))

    Reads-denom :
        (s : Bytes) (i : ℕ) (m m' : Params Int) (rest : Bytes)
        → i + length (delimited 0xa s) ≤ l
        → Reads rest (i + length (delimited 0xa s)) (record m { mint_denom = s }) m'
        → Reads (delimited 0xa s ++ rest) i m m'
    unfolding handle_field
    Reads-denom s i m m' rest h k =
        let w : ℕ = length (varint (length s)) in
        let len : length (delimited 0xa s) ≡ 1 + w + length s =
          omega (arith, length-append (varint (length s)) s) in
        let stop : i + length (delimited 0xa s) ≡ i + 1 + w + length s = omega arith in
        rw (append_assoc (varint (length s)) s rest) (
          Decodes-field skip dropped (handle_field n) l 0xa i (i + 1 + w + length s) m
            (record m { mint_denom = s }) m' (varint (length s) ++ (s ++ rest)) rest (omega arith)
            (omega arith) (omega arith)
            (omega (arith, length-append (varint (length s)) (s ++ rest), length-append s rest))
            (rw (read_delimited-varint s rest l (i + 1) fits (omega arith))) (rw stop at k))

    -- The last two fields, then the first where it was written.
    Reads-tail :
        (m : Params Int) (z : ℤ) (i : ℕ) (m0 : Params Int)
        → value m.mint_amount ≡ some z
        → i + length (delimited 0x12 (encoding m.mint_amount) ++ enabled_bytes m.mint_enabled) ≤ l
        → Reads
            (delimited 0x12 (encoding m.mint_amount) ++ enabled_bytes m.mint_enabled)
            i
            m0
            (record m0 {
              mint_amount = m.mint_amount;
              mint_enabled = if m.mint_enabled then true else m0.mint_enabled;
            })
    Reads-tail m z i m0 v h =
        let total =
          length-append (delimited 0x12 (encoding m.mint_amount)) (enabled_bytes m.mint_enabled) in
        Reads-amount m.mint_amount z i m0 _ (enabled_bytes m.mint_enabled) v (omega arith) (
          Reads-enabled m.mint_enabled (i + length (delimited 0x12 (encoding m.mint_amount)))
            (record m0 { mint_amount = m.mint_amount }) (omega arith))

    abbrev Tail : Params Int → Bytes
    Tail m = delimited 0x12 (encoding m.mint_amount) ++ enabled_bytes m.mint_enabled

    -- The whole message, where `b` says whether the denom was written.
    Reads-message :
        (b : Bool) (m : Params Int) (z : ℤ) (m0 : Params Int)
        → value m.mint_amount ≡ some z
        → length ((if b then delimited 0xa m.mint_denom else []) ++ Tail m) ≡ l
        → Reads ((if b then delimited 0xa m.mint_denom else []) ++ Tail m) 0 m0 (record {
          mint_denom = if b then m.mint_denom else m0.mint_denom;
          mint_amount = m.mint_amount;
          mint_enabled = if m.mint_enabled then true else m0.mint_enabled;
        })
    Reads-message false m z m0 v e = Reads-tail m z 0 m0 v (omega arith)
    Reads-message true m z m0 v e =
        let total = length-append (delimited 0xa m.mint_denom) (Tail m) in
        Reads-denom m.mint_denom 0 m0 _ (Tail m) (omega arith) (
          Reads-tail m z (0 + length (delimited 0xa m.mint_denom))
            (record m0 { mint_denom = m.mint_denom }) v (omega arith))

  -- The encoding of parameters whose amount is not nil is read back, merged into what was there.
  pub unmarshal-encode :
      (m m0 : Params Int) (z : ℤ)
      → value m.mint_amount ≡ some z
      → FitsInt n laws m
      → unmarshal n (encode n laws m) m0 ≡ ok (merge m0 m)
  unfolding unmarshal unmarshal_into
  unmarshal-encode m m0 z v h =
      Reads-message (length (encode n laws m)) h (ltb 0 (length m.mint_denom)) m z m0 v refl
        (length (encode n laws m)) (omega arith)

  -- Into the zero value, parameters with an amount that is not nil are read back as they were.
  pub unmarshal-marshal :
      (m : Params Int) (z : ℤ)
      → value m.mint_amount ≡ some z
      → FitsInt n laws m
      → (marshal n m >>= λ src. unmarshal n src (zero_params n)) ≡ ok m
  unfolding zero_params
  unmarshal-marshal m z v h =
      rw (marshal_lem n laws m h) (unmarshal-encode m (zero_params n) z v h ∙ ap ok (merge_zero m))
