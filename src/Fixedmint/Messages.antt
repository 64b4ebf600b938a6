-- ===== src/Fixedmint/Messages.antt =====
-- The messages that hold parameters, on the wire: what tx.pb.go, genesis.pb.go and query.pb.go of
-- x/fixedmint/types do with a field that is a `Params`.
pub mod Nested
pub mod Update
pub mod Single
use bluechip_chain_official.Prelude.{
  ℕ, ◌+◌, ◌-◌, Bytes, ◌++◌, Outcome, ok, panic, ◌>>=◌, ltb, if◌then◌else◌, length, take, drop,
}
use bluechip_chain_official.MathInt.{MathInt}
use bluechip_chain_official.Fixedmint.Params.{Params}
use bluechip_chain_official.Fixedmint.Params.Codec.{size, marshal_to_sized_buffer, unmarshal}
use bluechip_chain_official.Wire.Varint.{sov}
use bluechip_chain_official.Wire.Buffer.{Cursor, put_byte, put_varint}
use bluechip_chain_official.Wire.Read.{read_delimited}

module _ (n : MathInt) where
  open n use {Int}

  -- The field in `Size`.
  unfoldable pub params_size : Params Int → ℕ
  params_size p = 1 + size n p + sov (size n p)

  -- The message is written at the end of `dAtA[:i]`, then its length and its tag.
  unfoldable pub put_params : ℕ → Params Int → Cursor → Outcome Cursor
  put_params tag p c = do
    (front, count) ← marshal_to_sized_buffer n p (take c.i c.buf)
    c' ← put_varint count (record { buf = front ++ drop c.i c.buf; i = c.i - count })
    put_byte tag c'

  -- A length, and as many bytes merged into the parameters that were there.
  unfoldable pub read_params : ℕ → Bytes → ℕ → Params Int → Outcome (Params Int × ℕ × Bytes)
  read_params l src i p = do
    (s, i', rest) ← read_delimited l src i
    p' ← unmarshal n s p
    ok (p', i', rest)
