-- ===== src/Fixedmint/Messages/Nested.antt =====
-- A field that holds parameters: what is written, and its width.
use bluechip_chain_official.Prelude.{
  ℕ, ◌-◌, ◌≡◌, sym, ◌∙◌, arith, Bytes, [], ◌∷◌, ◌++◌, length, length-append, take-append,
  drop-append, append_assoc, Yields, Yields->>=,
}
use bluechip_chain_official.MathInt.{MathInt, MathIntLaws}
use bluechip_chain_official.Fixedmint.Params.{Params}
use bluechip_chain_official.Fixedmint.Params.Codec.{size, unmarshal}
use bluechip_chain_official.Fixedmint.Params.Codec.Encode.{
  encode, FitsInt, size-length, marshal_to_sized_buffer_lem,
}
use bluechip_chain_official.Fixedmint.Params.Codec.Decode.{unmarshal_returns}
use bluechip_chain_official.Fixedmint.Messages.{params_size, put_params, read_params}
use bluechip_chain_official.Wire.Leb.{varint, delimited}
use bluechip_chain_official.Wire.Varint.Width.{sov-length}
use bluechip_chain_official.Wire.Buffer.{put_byte, put_varint}
use bluechip_chain_official.Wire.Buffer.Writes.{
  split_room, Writes, Writes-then, put_byte-Writes, put_varint-Writes,
}
use bluechip_chain_official.Wire.Read.{read_delimited}
use bluechip_chain_official.Wire.Read.Progress.{
  TakesValue, TakesBytes, Indexed, read_delimited_takes,
}

module _ (n : MathInt) (laws : MathIntLaws n) where
  open n use {Int}

  -- In front of what is written stand the tag, the length and the message.
  pub put_params-Writes :
      (tag : ℕ) (p : Params Int)
      → FitsInt n laws p
      → Writes (put_params n tag p) (delimited tag (encode n laws p))
  unfolding put_params size put_byte
  put_params-Writes tag p h front junk back e =
      let s = encode n laws p in
      let w = size n p in
      let width : w ≡ length s = size-length n laws p h in
      let (a, b, whole, la, lb) =
        split_room (length (tag ∷ varint (length s))) (length s) junk
          (omega (arith, length-append (varint (length s)) s)) in
      let front' = front ++ a in
      let written = marshal_to_sized_buffer_lem n laws p front' b h (lb ∙ sym width) in
      let base : length (front' ++ b) - w ≡ length front' = omega (arith, length-append front' b) in
      let prefix =
        Writes-then (put_varint (length s)) (put_byte tag) (varint (length s)) (tag ∷ [])
          (put_varint-Writes (length s) (omega arith)) (put_byte-Writes tag) front a (s ++ back)
          la in
      rw
        (
          ← whole,
          ← append_assoc front a b,
          take-append (front' ++ b) back,
          drop-append (front' ++ b) back,
          written,
          base,
          append_assoc front' s back,
          width,
          append_assoc (varint (length s)) s back,
        )
        prefix

  pub params_size-length :
      (tag : ℕ) (p : Params Int)
      → FitsInt n laws p
      → params_size n p ≡ length (delimited tag (encode n laws p))
  unfolding params_size
  params_size-length tag p h =
      let s = encode n laws p in
      rw (size-length n laws p h)
        (omega (arith, sov-length (length s) (omega arith), length-append (varint (length s)) s))

  -- Reading the field never takes more than there is.
  pub read_params_takes :
      (l : ℕ) (src : Bytes) (i : ℕ) (p : Params Int)
      → Indexed l src i
      → Yields (TakesValue src i) (read_params n l src i p)
  unfolding read_params
  read_params_takes l src i p e =
      let Q : Params Int × ℕ × Bytes → Type 0 = TakesValue src i in
      Yields->>= (TakesBytes src i) Q (read_delimited l src i) _ (read_delimited_takes src l i e)
        λ r taken.
          Yields->>= (λ _. Unit) Q (unmarshal n r.0 p) _
            (unmarshal_returns n laws r.0 p (omega arith)) λ x _. omega arith
