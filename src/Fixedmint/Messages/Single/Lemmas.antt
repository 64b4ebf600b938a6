-- ===== src/Fixedmint/Messages/Single/Lemmas.antt =====
-- A message with the parameters alone comes back from the wire as it was sent.
use bluechip_chain_official.Prelude.{
  ℕ, ◌+◌, ◌^◌, ◌<◌, ◌≡◌, ◌∙◌, ap, subst, arith, not, some, Bytes, [], ◌++◌, Outcome, ok, ◌>>=◌,
  ◌==◌, length, length-append, append-nil, Yields, Yields->>=, Yields-fail_if, Yields-if,
}
use bluechip_chain_official.MathInt.{ℤ, MathInt, MathIntLaws}
use bluechip_chain_official.Fixedmint.Params.{Params, zero_params}
use bluechip_chain_official.Fixedmint.Params.Codec.{unmarshal}
use bluechip_chain_official.Fixedmint.Params.Codec.Encode.{encode, FitsInt}
use bluechip_chain_official.Fixedmint.Params.Codec.Decode.{unmarshal-encode, merge_zero}
use bluechip_chain_official.Fixedmint.Messages.{read_params, put_params}
use bluechip_chain_official.Fixedmint.Messages.Nested.{
  put_params-Writes, params_size-length, read_params_takes,
}
use bluechip_chain_official.Fixedmint.Messages.Single.{
  put_single, single_marshal, handle_single, single_unmarshal,
}
use bluechip_chain_official.Wire.Leb.{varint, delimited}
use bluechip_chain_official.Wire.Buffer.Whole.{made_lem}
use bluechip_chain_official.Wire.Read.{read_delimited}
use bluechip_chain_official.Wire.Read.Progress.{TakesValue}
use bluechip_chain_official.Wire.Message.{dropped, Handled, unmarshal_into}
use bluechip_chain_official.Wire.Message.Total.{Keeps, IsTotal, unmarshal_into_total}
use bluechip_chain_official.Wire.Message.Fields.{
  nested_field, Decodes, Decodes-end, Decodes-delimited,
}

module _ (n : MathInt) (laws : MathIntLaws n) {M : Type 0} (get : M → Params n.Int)
    (set : Params n.Int → M → M) (skip_field : Bytes → Outcome ℕ) where
  handle_single-IsTotal : IsTotal (handle_single n get set)
  unfolding handle_single
  handle_single-IsTotal field t l src i m e =
      let Q : Handled M → Type 0 = Keeps src i in
      Yields-if Q (field == 1) _ _
        (λ _. Yields-fail_if Q (not (t == 2)) _ _ λ _.
          Yields->>= (TakesValue src i) Q (read_params n l src i (get m)) _
            (read_params_takes n laws l src i (get m) e) λ r taken. omega arith)
        λ _. tt

  pub single_unmarshal_returns :
      ((src : Bytes) → Yields (λ k. 0 < k) (skip_field src))
      → (src : Bytes) (m : M) → length src < 2 ^ 63
      → Yields (λ _. Unit) (single_unmarshal n get set skip_field src m)
  unfolding single_unmarshal
  single_unmarshal_returns moves src m fits =
      unmarshal_into_total skip_field dropped (handle_single n get set) moves handle_single-IsTotal
        src m fits

  -- What is written: the tag, the length and the parameters.
  abbrev pub encode_single : M → Bytes
  encode_single m = delimited 0xa (encode n laws (get m))

  pub single_marshal_lem :
      (m : M)
      → length (encode_single m) < 2 ^ 63
      → single_marshal n get set m ≡ ok (encode_single m)
  unfolding single_marshal put_single
  single_marshal_lem m h =
      let s = encode n laws (get m) in
      let fits : FitsInt n laws (get m) = omega (arith, length-append (varint (length s)) s) in
      made_lem (put_params n 0xa (get m)) (encode_single m)
        (put_params-Writes n laws 0xa (get m) fits) _ (params_size-length n laws 0xa (get m) fits)

  pub single_unmarshal-single_marshal :
      (m m0 m' : M) (z : ℤ)
      → laws.value (get m).mint_amount ≡ some z
      → length (encode_single m) < 2 ^ 63
      → get m0 ≡ zero_params n
      → set (get m) m0 ≡ m'
      → (single_marshal n get set m >>= λ src. single_unmarshal n get set skip_field src m0) ≡ ok m'
  unfolding single_unmarshal unmarshal_into handle_single read_params
  single_unmarshal-single_marshal m m0 m' z v h zero same =
      let s = encode n laws (get m) in
      let l = length (encode_single m) in
      let fits : FitsInt n laws (get m) = omega (arith, length-append (varint (length s)) s) in
      let read : unmarshal n s (get m0) ≡ ok (get m) = rw zero (
        unmarshal-encode n laws (get m) (zero_params n) z v fits
        ∙ ap ok (merge_zero n laws (get m))) in
      let reads : Decodes skip_field dropped (handle_single n get set) l (encode_single m ++ []) 0
          m0 m' =
        Decodes-delimited skip_field dropped (handle_single n get set) l
          (λ t x. unmarshal n t (get x) >>= λ q. ok (set q x)) 0xa s 0 m0 m' m' []
          (λ src j.
            nested_field (read_delimited l src j) (λ t. unmarshal n t (get m0)) (λ q. set q m0))
          (omega arith) (omega arith) (omega arith) h (omega arith) (rw read (ap ok same))
          (Decodes-end skip_field dropped (handle_single n get set) l (0 + l) m' (omega arith)) in
      rw (single_marshal_lem m h) (
        subst (λ (t : Bytes). Decodes skip_field dropped (handle_single n get set) l t 0 m0 m')
          (append-nil (encode_single m)) reads l (omega arith))
