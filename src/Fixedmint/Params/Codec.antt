-- ===== src/Fixedmint/Params/Codec.antt =====
-- The wire form of the parameters: x/fixedmint/types/params.pb.go.
pub mod Encode
pub mod Decode
use bluechip_chain_official.Prelude.{
  ℕ, ◌+◌, ◌-◌, Bool, true, false, not, Bytes, [], ◌++◌, Outcome, ok, err, panic, wrong_wire_type,
  ◌>>=◌, ◌>>◌, fail_if, ltb, ◌==◌, if◌then◌else◌, length, take, drop, replicate,
}
use bluechip_chain_official.MathInt.{MathInt}
use bluechip_chain_official.Fixedmint.Params.{Params}
use bluechip_chain_official.Wire.Varint.{sov}
use bluechip_chain_official.Wire.Buffer.{Cursor, put_byte, put_string, put_varint}
use bluechip_chain_official.Wire.Read.{read_varint, read_delimited, skip}
use bluechip_chain_official.Wire.Message.{dropped, Handled, next, unknown, unmarshal_into}

module _ (n : MathInt) where
  open n use {Int}

  -- `(*Params).Size`
  unfoldable pub size : Params Int → ℕ
  size m =
      (if ltb 0 (length m.mint_denom)
        then 1 + length m.mint_denom + sov (length m.mint_denom)
        else 0)
      + (1 + n.size m.mint_amount + sov (n.size m.mint_amount))
      + (if m.mint_enabled then 2 else 0)

  -- `i -= size; m.MintAmount.MarshalTo(dAtA[i:])`
  unfoldable pub put_int : Int → Cursor → Outcome Cursor
  put_int x c =
      let i' = c.i - n.size x in
      if ltb c.i (n.size x) then panic else (do
        tail ← n.marshal_to x (drop i' c.buf)
        ok (record { buf = take i' c.buf ++ tail; i = i' }))

  -- The three fields, the last one first.
  unfoldable pub put_enabled : Params Int → Cursor → Outcome Cursor
  put_enabled m c =
      if m.mint_enabled
      then (do c' ← put_byte (if m.mint_enabled then 1 else 0) c; put_byte 0x18 c')
      else ok c

  unfoldable pub put_amount : Params Int → Cursor → Outcome Cursor
  unfolding put_int
  put_amount m c = do
    c' ← put_int m.mint_amount c
    c'' ← put_varint (n.size m.mint_amount) c'
    put_byte 0x12 c''

  unfoldable pub put_denom : Params Int → Cursor → Outcome Cursor
  put_denom m c =
      if ltb 0 (length m.mint_denom)
      then (do
        c' ← put_string m.mint_denom c
        c'' ← put_varint (length m.mint_denom) c'
        put_byte 0xa c'')
      else ok c

  unfoldable pub put_fields : Params Int → Cursor → Outcome Cursor
  put_fields m c = do c' ← put_enabled m c; c'' ← put_amount m c'; put_denom m c''

  -- `MarshalToSizedBuffer`: the slice after the call, and the count of bytes at its end.
  unfoldable pub marshal_to_sized_buffer : Params Int → Bytes → Outcome (Bytes × ℕ)
  marshal_to_sized_buffer m buf = do
    c ← put_fields m (record { buf = buf; i = length buf })
    ok (c.buf, length c.buf - c.i)

  -- `Marshal`, which returns the front of the slice that it made.
  unfoldable pub marshal : Params Int → Outcome Bytes
  marshal m = do
    (buf, count) ← marshal_to_sized_buffer m (replicate (size m) 0)
    ok (take count buf)

  -- The switch on the field's number, with the wire type `t`.
  unfoldable pub handle_field : ℕ → ℕ → ℕ → Bytes → ℕ → Params Int → Outcome (Handled (Params Int))
  handle_field field t l src i m =
      if field == 1
      then (do
        fail_if (not (t == 2)) (wrong_wire_type t 1)
        (s, i', rest) ← read_delimited l src i
        ok (next (record m { mint_denom = s }) i' rest))
      else if field == 2
      then (do
        fail_if (not (t == 2)) (wrong_wire_type t 2)
        (s, i', rest) ← read_delimited l src i
        amount ← n.unmarshal m.mint_amount s
        ok (next (record m { mint_amount = amount }) i' rest))
      else if field == 3
      then (do
        fail_if (not (t == 0)) (wrong_wire_type t 3)
        (v, i', rest) ← read_varint src i
        ok (next (record m { mint_enabled = not (v == 0) }) i' rest))
      else ok unknown

  -- `(*Params).Unmarshal`, which merges the input into `m`.
  unfoldable pub unmarshal : Bytes → Params Int → Outcome (Params Int)
  unfolding handle_field
  unmarshal src m = unmarshal_into skip dropped handle_field src m
