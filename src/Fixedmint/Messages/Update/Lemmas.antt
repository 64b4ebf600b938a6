-- ===== src/Fixedmint/Messages/Update/Lemmas.antt =====
-- `MsgUpdateParams` comes back from the wire as it was sent.
use bluechip_chain_official.Prelude.{
  ℕ, ◌+◌, ◌^◌, ◌<◌, ◌≤◌, ◌≡◌, ◌∙◌, refl, ap, subst, arith, Bool, true, false, not, some, Bytes, [],
  ◌∷◌, ◌++◌, ok, ◌>>=◌, ltb, ◌==◌, if◌then◌else◌, length, length-append, append-nil, Yields,
  Yields->>=, Yields-fail_if, Yields-if,
}
use bluechip_chain_official.MathInt.{ℤ, MathInt, MathIntLaws}
use bluechip_chain_official.Fixedmint.Params.{Params, zero_params}
use bluechip_chain_official.Fixedmint.Params.Codec.{unmarshal}
use bluechip_chain_official.Fixedmint.Params.Codec.Encode.{encode, FitsInt}
use bluechip_chain_official.Fixedmint.Params.Codec.Decode.{unmarshal-encode, merge_zero}
use bluechip_chain_official.Fixedmint.Keeper.{MsgUpdateParams}
use bluechip_chain_official.Fixedmint.Messages.{read_params, put_params}
use bluechip_chain_official.Fixedmint.Messages.Nested.{
  put_params-Writes, params_size-length, read_params_takes,
}
use bluechip_chain_official.Fixedmint.Messages.Update.{
  skip_tx, zero_msg, msg_size, msg_marshal_to_sized_buffer, put_authority, put_msg, msg_marshal,
  handle_msg, msg_unmarshal,
}
use bluechip_chain_official.Wire.Leb.{varint, delimited, string_bytes}
use bluechip_chain_official.Wire.Varint.Width.{length-string_bytes, string_fits}
use bluechip_chain_official.Wire.Buffer.{put_byte, put_string, put_varint}
use bluechip_chain_official.Wire.Buffer.Writes.{Writes, Writes-then, Writes-if, delimited-Writes}
use bluechip_chain_official.Wire.Buffer.Whole.{made_lem}
use bluechip_chain_official.Wire.Read.{read_delimited}
use bluechip_chain_official.Wire.Read.Progress.{
  TakesValue, TakesBytes, read_delimited_takes, skip_moves,
}
use bluechip_chain_official.Wire.Message.{dropped, Handled, unmarshal_into}
use bluechip_chain_official.Wire.Message.Total.{Keeps, IsTotal, unmarshal_into_total}
use bluechip_chain_official.Wire.Message.Fields.{
  nested_field, Decodes, Decodes-end, Decodes-delimited,
}

module _ (n : MathInt) (laws : MathIntLaws n) where
  open n use {Int}

  handle_msg-IsTotal : IsTotal (handle_msg n)
  unfolding handle_msg
  handle_msg-IsTotal field t l src i m e =
      let Q : Handled (MsgUpdateParams Int) → Type 0 = Keeps src i in
      Yields-if Q (field == 1) _ _
        (λ _. Yields-fail_if Q (not (t == 2)) _ _ λ _.
          Yields->>= (TakesBytes src i) Q (read_delimited l src i) _
            (read_delimited_takes src l i e) λ r taken. omega arith)
        λ _.
          Yields-if Q (field == 2) _ _
            (λ _. Yields-fail_if Q (not (t == 2)) _ _ λ _.
              Yields->>= (TakesValue src i) Q (read_params n l src i m.params) _
                (read_params_takes n laws l src i m.params e) λ r taken. omega arith)
            λ _. tt

  -- On every input of a length that an int holds, `Unmarshal` of the message comes back with a message or with an error.
  pub msg_unmarshal_returns :
      (src : Bytes) (m : MsgUpdateParams Int)
      → length src < 2 ^ 63
      → Yields (λ _. Unit) (msg_unmarshal n src m)
  unfolding msg_unmarshal skip_tx
  msg_unmarshal_returns src m fits =
      unmarshal_into_total skip_tx dropped (handle_msg n) skip_moves handle_msg-IsTotal src m fits

  abbrev pub encode_msg : MsgUpdateParams Int → Bytes
  encode_msg m = string_bytes m.authority ++ delimited 0x12 (encode n laws m.params)

  -- The length of the message is one that an int holds.
  abbrev pub MsgFitsInt : MsgUpdateParams Int → Type 0
  MsgFitsInt m = length (encode_msg m) < 2 ^ 63

  pub parts_fit :
      (m : MsgUpdateParams Int)
      → MsgFitsInt m
      → (length m.authority < 2 ^ 63) × FitsInt n laws m.params
  parts_fit m h =
      let s = encode n laws m.params in
      omega (
        arith,
        string_fits m.authority,
        length-append (string_bytes m.authority) (delimited 0x12 s),
        length-append (varint (length s)) s,
      )

  put_msg-Writes : (m : MsgUpdateParams Int) → MsgFitsInt m → Writes (put_msg n m) (encode_msg m)
  unfolding put_msg put_authority
  put_msg-Writes m h =
      let (small, fits) = parts_fit m h in
      Writes-then (put_params n 0x12 m.params) (put_authority n m)
        (delimited 0x12 (encode n laws m.params)) (string_bytes m.authority)
        (put_params-Writes n laws 0x12 m.params fits)
        (Writes-if
          (λ c.
            put_string m.authority c >>= λ c'. put_varint (length m.authority) c' >>= put_byte 0xa)
          (ltb 0 (length m.authority)) (delimited 0xa m.authority)
          (delimited-Writes 0xa m.authority (omega arith)))

  msg_size-length : (m : MsgUpdateParams Int) → MsgFitsInt m → msg_size n m ≡ length (encode_msg m)
  unfolding msg_size
  msg_size-length m h =
      let (small, fits) = parts_fit m h in
      omega (
        arith,
        length-string_bytes m.authority small,
        params_size-length n laws 0x12 m.params fits,
        length-append (string_bytes m.authority) (delimited 0x12 (encode n laws m.params)),
      )

  -- `Marshal` comes back with the encoding.
  pub msg_marshal_lem :
      (m : MsgUpdateParams Int) → MsgFitsInt m → msg_marshal n m ≡ ok (encode_msg m)
  unfolding msg_marshal msg_marshal_to_sized_buffer
  msg_marshal_lem m h =
      made_lem (put_msg n m) (encode_msg m) (put_msg-Writes m h) (msg_size n m)
        (msg_size-length m h)

  module _ (l : ℕ) (fits : l < 2 ^ 63) where
    abbrev Reads : Bytes → ℕ → MsgUpdateParams Int → MsgUpdateParams Int → Type 0
    Reads = Decodes skip_tx dropped (handle_msg n) l

    Reads-params :
        (p : Params Int) (z : ℤ) (i : ℕ) (m : MsgUpdateParams Int)
        → laws.value p.mint_amount ≡ some z
        → FitsInt n laws p
        → m.params ≡ zero_params n
        → i + length (delimited 0x12 (encode n laws p)) ≤ l
        → Reads (delimited 0x12 (encode n laws p)) i m (record m { params = p })
    unfolding handle_msg read_params
    Reads-params p z i m v h e room =
        let s = encode n laws p in
        let m' : MsgUpdateParams Int = record m { params = p } in
        let read : unmarshal n s m.params ≡ ok p =
          rw e (unmarshal-encode n laws p (zero_params n) z v h ∙ ap ok (merge_zero n laws p)) in
        subst (λ (t : Bytes). Reads t i m m') (append-nil (delimited 0x12 s))
          (Decodes-delimited skip_tx dropped (handle_msg n) l
            (λ t x. unmarshal n t x.params >>= λ q. ok (record x { params = q })) 0x12 s i m m' m'
            []
            (λ src j.
              nested_field (read_delimited l src j) (λ t. unmarshal n t m.params)
                (λ q. record m { params = q }))
            (omega arith) (omega arith) (omega arith) fits room (rw read)
            (Decodes-end skip_tx dropped (handle_msg n) l (i + length (delimited 0x12 s)) m' room))

    Reads-message :
        (b : Bool) (a : Bytes) (p : Params Int) (z : ℤ)
        → laws.value p.mint_amount ≡ some z
        → FitsInt n laws p
        → length ((if b then delimited 0xa a else []) ++ delimited 0x12 (encode n laws p)) ≡ l
        → Reads
            ((if b then delimited 0xa a else []) ++ delimited 0x12 (encode n laws p))
            0
            (zero_msg n)
            (record { authority = if b then a else []; params = p })
    unfolding handle_msg zero_msg
    Reads-message false a p z v h e = Reads-params p z 0 (zero_msg n) v h refl (omega arith)
    Reads-message true a p z v h e =
        let rest = delimited 0x12 (encode n laws p) in
        let m' : MsgUpdateParams Int = record { authority = a; params = zero_params n } in
        let total = length-append (delimited 0xa a) rest in
        Decodes-delimited skip_tx dropped (handle_msg n) l (λ t x. ok (record x { authority = t }))
          0xa a 0 (zero_msg n) m' (record { authority = a; params = p }) rest (λ src j. refl)
          (omega arith) (omega arith) (omega arith) fits (omega arith) refl
          (Reads-params p z (0 + length (delimited 0xa a)) m' v h refl (omega arith))

  authority_kept : (a : Bytes) → (if ltb 0 (length a) then a else []) ≡ a
  authority_kept [] = refl
  authority_kept (c ∷ a) = ground arith

  -- A message whose amount is not nil, and whose length an int holds, is read back from what
  -- `Marshal` wrote as it was.
  pub msg_unmarshal-msg_marshal :
      (m : MsgUpdateParams Int) (z : ℤ)
      → laws.value m.params.mint_amount ≡ some z
      → MsgFitsInt m
      → (msg_marshal n m >>= λ src. msg_unmarshal n src (zero_msg n)) ≡ ok m
  unfolding msg_unmarshal unmarshal_into
  msg_unmarshal-msg_marshal m z v h =
      let (small, fits) = parts_fit m h in
      let l = length (encode_msg m) in
      rw (msg_marshal_lem m h) (
        Reads-message l h (ltb 0 (length m.authority)) m.authority m.params z v fits refl l
          (omega arith)
        ∙ ap (λ (a : Bytes). ok (record { authority = a; params = m.params }))
            (authority_kept m.authority))
