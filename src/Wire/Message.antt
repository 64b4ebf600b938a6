-- ===== src/Wire/Message.antt =====
-- The loop of every generated `Unmarshal`, over what the message does with a known field.
pub mod Total
pub mod Fields
use bluechip_chain_official.Prelude.{
  ℕ, zero, suc, ◌+◌, ◌/◌, ◌%◌, ◌^◌, bit_and, ◌||◌, ◌&&◌, Bytes, [], ◌∷◌, Outcome, ok, err, stuck,
  invalid_length, unexpected_eof, end_group, illegal_tag, ◌>>=◌, ◌>>◌, fail_if, ltb, leb, ◌==◌,
  if◌then◌else◌, length, drop, take,
}
use bluechip_chain_official.Wire.Read.{read_varint, slice}

-- What a case of the switch leaves: the message, `iNdEx` and what follows; or the default case.
pub data Handled (M : Type 0) : Type 0 where
  next : M → ℕ → Bytes → Handled M
  unknown : Handled M

-- The field's number and wire type, the length of the input, what follows, `iNdEx`, the message.
abbrev pub Handler : Type 0 → Type 0
Handler M = ℕ → ℕ → ℕ → Bytes → ℕ → M → Outcome (Handled M)

-- The code of x/fixedmint/types does nothing with the bytes of an unknown field.
abbrev pub dropped : {M : Type 0} → Bytes → M → M
dropped bs m = m

-- The default case goes back to the tag, at `pre`, and skips the field by the file's own copy of
-- `skip…`; `keep` is what the message does with the bytes that are skipped.
unfoldable pub skip_unknown :
    {M : Type 0}
    → (Bytes → Outcome ℕ)
    → (Bytes → M → M)
    → ℕ
    → Bytes
    → ℕ
    → M
    → Handled M
    → Outcome (M × ℕ × Bytes)
unfolding slice
skip_unknown skip_field keep l here pre m (next m' i rest) = ok (m', i, rest)
skip_unknown skip_field keep l here pre m unknown = do
  skippy ← skip_field here
  let post = (pre + skippy) % 2 ^ 64
  fail_if (leb (2 ^ 63) skippy || leb (2 ^ 63) post) invalid_length
  fail_if (ltb l post && ltb post (2 ^ 63)) unexpected_eof
  (field, rest) ← slice pre post here
  ok (keep field m, post, rest)

-- One round: the tag, its checks, and the switch. `fieldNum` is an int32.
unfoldable pub field_step :
    {M : Type 0}
    → (Bytes → Outcome ℕ)
    → (Bytes → M → M)
    → Handler M
    → ℕ
    → Bytes
    → ℕ
    → M
    → Outcome (M × ℕ × Bytes)
unfolding skip_unknown
field_step skip_field keep h l here pre m = do
  (wire, i, rest) ← read_varint here pre
  let field = wire / 8 % 2 ^ 32
  let wire_type = bit_and wire 0x7
  fail_if (wire_type == 4) end_group
  fail_if (field == 0 || leb (2 ^ 31) field) (illegal_tag field wire)
  r ← h field wire_type l rest i m
  skip_unknown skip_field keep l here pre m r

unfoldable pub unmarshal_loop :
    {M : Type 0}
    → (Bytes → Outcome ℕ)
    → (Bytes → M → M)
    → Handler M
    → ℕ
    → ℕ
    → Bytes
    → ℕ
    → M
    → Outcome M
unmarshal_loop skip_field keep h l rounds [] i m = if ltb l i then err unexpected_eof else ok m
unmarshal_loop skip_field keep h l zero (b ∷ bs) i m = stuck
unmarshal_loop skip_field keep h l (suc rounds) (b ∷ bs) i m = do
  (m', i', rest) ← field_step skip_field keep h l (b ∷ bs) i m
  unmarshal_loop skip_field keep h l rounds rest i' m'

-- `m.Unmarshal(dAtA)`, merged into `m`. Each round takes a byte at least.
unfoldable pub unmarshal_into :
    {M : Type 0} → (Bytes → Outcome ℕ) → (Bytes → M → M) → Handler M → Bytes → M → Outcome M
unmarshal_into skip_field keep h data' m =
    unmarshal_loop skip_field keep h (length data') (length data') data' 0 m
