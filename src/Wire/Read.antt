-- ===== src/Wire/Read.antt =====
-- Reading a varint, and `skipParams` of x/fixedmint/types/params.pb.go. The lists are what is not
-- read yet, and `i` is `iNdEx`.
pub mod Decode
pub mod Progress
use bluechip_chain_official.Prelude.{
  ℕ, zero, suc, ◌+◌, ◌-◌, ◌*◌, ◌%◌, ◌^◌, bit_and, bit_or, Bytes, [], ◌∷◌, Outcome, ok, err, panic,
  stuck, ◌||◌, ◌&&◌, false, ◌≤◌, ◌<◌, ◌≡◌, refl, arith, int_overflow, invalid_length,
  unexpected_eof, unexpected_end_of_group, illegal_wire_type, ◌>>=◌, ◌>>◌, fail_if, ltb, leb, ◌==◌,
  if◌then◌else◌, length, drop, take,
}

-- `x |= uint64(b&0x7F) << shift` until a byte below 0x80; the value, `iNdEx` and what follows.
unfoldable pub read_loop : Bytes → ℕ → ℕ → ℕ → Outcome (ℕ × ℕ × Bytes)
read_loop [] shift acc i = if leb 64 shift then err int_overflow else err unexpected_eof
read_loop (b ∷ rest) shift acc i =
    let acc' = bit_or acc (bit_and b 0x7f * 2 ^ shift % 2 ^ 64) in
    let more = read_loop rest (shift + 7) acc' (i + 1) in
    if leb 64 shift then err int_overflow else if ltb b 0x80 then ok (acc', i + 1, rest) else more

unfoldable pub read_varint : Bytes → ℕ → Outcome (ℕ × ℕ × Bytes)
read_varint rest i = read_loop rest 0 0 i

-- The loop of wire type 0, which only looks for the last byte.
unfoldable pub pass_varint : Bytes → ℕ → ℕ → Outcome (ℕ × Bytes)
pass_varint [] shift i = if leb 64 shift then err int_overflow else err unexpected_eof
pass_varint (b ∷ rest) shift i =
    let more = pass_varint rest (shift + 7) (i + 1) in
    if leb 64 shift then err int_overflow else if ltb b 0x80 then ok (i + 1, rest) else more

-- The switch on the wire type: `iNdEx`, what follows and `depth` behind it.
unfoldable pub skip_value : ℕ → Bytes → ℕ → ℕ → Outcome (ℕ × Bytes × ℕ)
skip_value wire_type rest i depth =
    if wire_type == 0
    then (do (i', rest') ← pass_varint rest 0 i; ok (i', rest', depth))
    else if wire_type == 1
    then ok (i + 8, drop 8 rest, depth)
    else if wire_type == 2
    then (do
      (n, i', rest') ← read_varint rest i
      fail_if (leb (2 ^ 63) n) invalid_length
      ok (i' + n, drop n rest', depth))
    else if wire_type == 3
    then ok (i, rest, depth + 1)
    else if wire_type == 4
    then (do fail_if (depth == 0) unexpected_end_of_group; ok (i, rest, depth - 1))
    else if wire_type == 5
    then ok (i + 4, drop 4 rest, depth)
    else err (illegal_wire_type wire_type)

-- An `iNdEx` of 2 ^ 63 or more is negative as an int.
unfoldable pub skip_loop : ℕ → Bytes → ℕ → ℕ → Outcome ℕ
skip_loop rounds [] i depth = err unexpected_eof
skip_loop zero (b ∷ bs) i depth = stuck
skip_loop (suc rounds) (b ∷ bs) i depth = do
  (wire, i', rest) ← read_varint (b ∷ bs) i
  (i'', rest', depth') ← skip_value (bit_and wire 0x7) rest i' depth
  fail_if (leb (2 ^ 63) i'') invalid_length
  let more = skip_loop rounds rest' i'' depth'
  if depth' == 0 then ok i'' else more

-- `skipParams`: the length of the first field. Each round takes a byte at least.
unfoldable pub skip : Bytes → Outcome ℕ
skip data' = skip_loop (length data') data' 0 0

-- `dAtA[low:high]`, where `rest` is what of `dAtA` stands from `low` on, and what follows it. A bound that is
-- out of range panics.
unfoldable pub slice : ℕ → ℕ → Bytes → Outcome (Bytes × Bytes)
slice low high rest =
    if leb (2 ^ 63) high || (ltb high low || ltb (low + length rest) high)
    then panic
    else ok (take (high - low) rest, drop (high - low) rest)

pub slice-ok :
    (low high : ℕ) (rest : Bytes)
    → low ≤ high
    → high ≤ low + length rest
    → high < 2 ^ 63
    → slice low high rest ≡ ok (take (high - low) rest, drop (high - low) rest)
unfolding slice
slice-ok low high rest a b c =
    let inside : (leb (2 ^ 63) high || (ltb high low || ltb (low + length rest) high)) ≡ false =
      ground arith in
    rw inside refl

-- A length and as many bytes: the checks of a `string` or message field, and `dAtA[iNdEx:postIndex]`. The sum
-- wraps around, and a negative int is not greater than `l`.
unfoldable pub read_delimited : ℕ → Bytes → ℕ → Outcome (Bytes × ℕ × Bytes)
unfolding slice
read_delimited l rest i = do
  (n, i', rest') ← read_varint rest i
  fail_if (leb (2 ^ 63) n) invalid_length
  let post_index = (i' + n) % 2 ^ 64
  fail_if (leb (2 ^ 63) post_index) invalid_length
  fail_if (ltb l post_index && ltb post_index (2 ^ 63)) unexpected_eof
  (bs, rest'') ← slice i' post_index rest'
  ok (bs, post_index, rest'')
