-- ===== src/Api/Buffer.antt =====
-- The steps that the `size`, `marshal` and `unmarshal` closures of every message of api/ repeat:
-- params.pulsar.go, tx.pulsar.go, genesis.pulsar.go, query.pulsar.go and module/module.pulsar.go of
-- api/bluechipchain/fixedmint.
pub mod Writes
pub mod Reads
use bluechip_chain_official.Prelude.{
  ℕ, ◌+◌, ◌<◌, Bool, Option, none, some, Bytes, [], ◌∷◌, ◌++◌, Outcome, ok, ◌>>=◌, ltb,
  if◌then◌else◌, length, replicate,
}
use bluechip_chain_official.Wire.Buffer.{Cursor, put_byte, put_string}
use bluechip_chain_official.Wire.Message.{Handler, unmarshal_into}
use bluechip_chain_official.Api.Runtime.{Runtime}

-- `x.unknownFields = append(x.unknownFields, bs...)`
unfoldable pub append_unknown : Option Bytes → Bytes → Option Bytes
append_unknown none [] = none
append_unknown none (b ∷ bs) = some (b ∷ bs)
append_unknown (some u) bs = some (u ++ bs)

-- `if x.unknownFields != nil { n += len(x.unknownFields) }`
unfoldable pub unknown_size : Option Bytes → ℕ
unknown_size none = 0
unknown_size (some u) = length u

unfoldable pub put_unknown : Option Bytes → Cursor → Outcome Cursor
put_unknown none c = ok c
put_unknown (some u) c = put_string u c

-- `if input.Buf != nil { input.Buf = append(input.Buf, dAtA...) } else { input.Buf = dAtA }`
unfoldable pub appended : Option Bytes → Bytes → Option Bytes
appended none out = some out
appended (some buf) out = some (buf ++ out)

-- A buffer of the size is made, filled from its end, and appended to the caller's.
unfoldable pub filled : ℕ → (Cursor → Outcome Cursor) → Option Bytes → Outcome (Option Bytes)
filled size put buf = do
  let made : Bytes = replicate size 0
  c ← put (record { buf = made; i = length made })
  ok (appended buf c.buf)

module _ (r : Runtime) where
  -- A string field.
  unfoldable pub text_size : Bytes → ℕ
  text_size s = if ltb 0 (length s) then 1 + length s + r.sov (length s) else 0

  -- `i = runtime.EncodeVarint(dAtA, i, v)`
  unfoldable pub put_length : ℕ → Cursor → Outcome Cursor
  put_length v c = do (out, base) ← r.encode_varint c.buf c.i v; ok (record { buf = out; i = base })

  -- The content, its length and the tag, from the end.
  unfoldable pub put_block : ℕ → Bytes → Cursor → Outcome Cursor
  put_block tag s c = do c' ← put_string s c; c'' ← put_length (length s) c'; put_byte tag c''

  unfoldable pub put_text : ℕ → Bytes → Cursor → Outcome Cursor
  put_text tag s c = let written = put_block tag s c in if ltb 0 (length s) then written else ok c

  module _ {P : Type 0} (size : Option P → ℕ)
      (marshal : Option P → Option Bytes → Outcome (Option Bytes)) where
    -- A field that is a message, where it is not nil.
    unfoldable pub message_size : Option P → ℕ
    message_size none = 0
    message_size (some p) = let l = r.options_size size (some p) in 1 + l + r.sov l

    unfoldable pub put_message : ℕ → Option P → Cursor → Outcome Cursor
    put_message tag none c = ok c
    put_message tag (some p) c = do
      encoded ← r.options_marshal marshal (some p)
      put_block tag encoded c

  -- The loop over the fields of a message that is not nil; unless `DiscardUnknown` is set, the unknown
  -- ones are kept by `keep`.
  unfoldable pub read_fields :
      {M : Type 0} → Handler M → (Bytes → M → M) → Bool → Bytes → Option M → Outcome (Option M)
  read_fields handler keep discard src none = ok none
  read_fields handler keep discard src (some m) = do
    m' ← unmarshal_into r.skip (λ bs x. if discard then x else keep bs x) handler src m
    ok (some m')
