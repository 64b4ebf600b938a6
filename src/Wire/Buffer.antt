-- ===== src/Wire/Buffer.antt =====
-- The steps by which `MarshalToSizedBuffer` fills its buffer, from the end to the front.
pub mod Writes
pub mod Whole
use bluechip_chain_official.Prelude.{
  ℕ, ◌+◌, ◌-◌, Bytes, [], ◌∷◌, ◌++◌, Outcome, ok, panic, ◌>>=◌, ltb, ◌==◌, if◌then◌else◌, length,
  take, drop, replicate,
}
use bluechip_chain_official.Wire.Varint.{store, encode_varint}

-- `dAtA` and `i`: what stands from `i` on is written.
pub record Cursor : Type 0 where
  pub buf : Bytes
  pub i : ℕ

-- `i--; dAtA[i] = b`
unfoldable pub put_byte : ℕ → Cursor → Outcome Cursor
put_byte b c =
    if c.i == 0
    then panic
    else (do buf' ← store c.buf (c.i - 1) b; ok (record { buf = buf'; i = c.i - 1 }))

-- Go's `copy`: as many elements as both slices have.
unfoldable pub copy : Bytes → Bytes → Bytes
copy [] src = []
copy (d ∷ dst) [] = d ∷ dst
copy (d ∷ dst) (s ∷ src) = s ∷ copy dst src

-- `i -= len(s); copy(dAtA[i:], s)`
unfoldable pub put_string : Bytes → Cursor → Outcome Cursor
put_string s c =
    let i' = c.i - length s in
    if ltb c.i (length s)
    then panic
    else ok (record { buf = take i' c.buf ++ copy (drop i' c.buf) s; i = i' })

-- `i = encodeVarint…(dAtA, i, v)`
unfoldable pub put_varint : ℕ → Cursor → Outcome Cursor
put_varint v c = do (buf', base) ← encode_varint c.buf c.i v; ok (record { buf = buf'; i = base })

-- `MarshalToSizedBuffer` around the steps: the slice after the call, and the count of bytes at its end.
unfoldable pub sized : (Cursor → Outcome Cursor) → Bytes → Outcome (Bytes × ℕ)
sized put buf = do c ← put (record { buf = buf; i = length buf }); ok (c.buf, length c.buf - c.i)

-- `Marshal` around `MarshalToSizedBuffer`: the front of the slice that it made.
unfoldable pub made : ℕ → (Bytes → Outcome (Bytes × ℕ)) → Outcome Bytes
made size fill = do (buf, count) ← fill (replicate size 0); ok (take count buf)
