-- ===== src/Wire/Read/Decode.antt =====
-- Reading back what `encodeVarintParams` wrote.
use bluechip_chain_official.Prelude.{
  ℕ, zero, suc, ◌+◌, ◌*◌, ◌/◌, ◌%◌, ◌^◌, ◌≤◌, ◌<◌, ◌≡◌, ◌∙◌, ap, arith, bit_and, bit_or, Bytes, ◌∷◌,
  ◌++◌, ok, length, refl, ◌-◌, length-append, take-append, drop-append,
}
use bluechip_chain_official.Prelude.Bits.{bit_and_7f, bit_or-shifted}
use bluechip_chain_official.Wire.Leb.{groups, varint, groups_small, groups_more}
use bluechip_chain_official.Wire.Read.{read_loop, read_varint, read_delimited, slice, slice-ok}
use native.Mathlib.Decide.{dec_lt}
use native.Mathlib.Nat.{div-add-mod}
use native.Mathlib.Numerals.{towards_suc}

add_group :
    (acc g shift : ℕ)
    → acc < 2 ^ shift
    → acc + g * 2 ^ shift < 2 ^ 64
    → bit_or acc (g * 2 ^ shift % 2 ^ 64) ≡ acc + g * 2 ^ shift
add_group acc g shift h b =
    let fits : g * 2 ^ shift % 2 ^ 64 ≡ g * 2 ^ shift = omega arith in
    rw fits (bit_or-shifted shift g acc h)

last_byte :
    (v acc shift i : ℕ) (rest : Bytes)
    → v < 128
    → shift ≤ 63
    → acc < 2 ^ shift
    → acc + v * 2 ^ shift < 2 ^ 64
    → read_loop (v ∷ rest) shift acc i ≡ ok (acc + v * 2 ^ shift, i + 1, rest)
unfolding read_loop
last_byte v acc shift i rest h s a b =
    let low : bit_and v 0x7f ≡ v = bit_and_7f v ∙ omega arith in
    rw low (rw (add_group acc v shift a b) (ground arith))

inner_byte :
    (g acc shift i : ℕ) (rest : Bytes)
    → g < 128
    → shift ≤ 63
    → acc < 2 ^ shift
    → acc + g * 2 ^ shift < 2 ^ 64
    → read_loop ((g + 128) ∷ rest) shift acc i
      ≡ read_loop rest (shift + 7) (acc + g * 2 ^ shift) (i + 1)
unfolding read_loop
inner_byte g acc shift i rest h s a b =
    let low : bit_and (g + 128) 0x7f ≡ g = bit_and_7f (g + 128) ∙ omega arith in
    rw low (rw (add_group acc g shift a b) (ground arith))

shift_seven : (s : ℕ) → 2 ^ (s + 7) ≡ 128 * 2 ^ s
shift_seven s = simp towards_suc (omega arith)

-- The lowest group of `v` and the rest, both shifted by `s`.
split_group : (v s : ℕ) → v * 2 ^ s ≡ v % 128 * 2 ^ s + v / 128 * 2 ^ (s + 7)
split_group v s = omega (
  arith,
  ap (λ (t : ℕ). t * 2 ^ s) (div-add-mod v 128),
  ap (λ (t : ℕ). v / 128 * t) (shift_seven s),
)

group_fits : (acc g s : ℕ) → g < 128 → acc < 2 ^ s → acc + g * 2 ^ s < 2 ^ (s + 7)
group_fits acc g s h a = rw shift_seven (grind arith)

read_loop-groups :
    (k v acc shift i : ℕ) (rest : Bytes)
    → v < 128 ^ suc k
    → shift + 7 * k ≤ 63
    → acc < 2 ^ shift
    → acc + v * 2 ^ shift < 2 ^ 64
    → read_loop (groups k v ++ rest) shift acc i
      ≡ ok (acc + v * 2 ^ shift, i + length (groups k v), rest)
read_loop-groups zero v acc shift i rest h s a b =
    unfold groups in last_byte v acc shift i rest (omega arith) (omega arith) a b
read_loop-groups (suc k) v acc shift i rest h s a b = elim (dec_lt v 128) [
  | yes p ↦ rw (groups_small (suc k) v p) (last_byte v acc shift i rest p (omega arith) a b)
  | no p ↦
      let split = split_group v shift in
      rw (groups_more k v (omega arith)) (
        inner_byte (v % 128) acc shift i (groups k (v / 128) ++ rest) (omega arith) (omega arith) a
          (omega arith)
        ∙ read_loop-groups k (v / 128) (acc + v % 128 * 2 ^ shift) (shift + 7) (i + 1) rest
            (omega arith) (omega arith) (group_fits acc (v % 128) shift (omega arith) a)
            (omega arith)
        ∙ ground arith)
]

-- A uint64 that was encoded is read back, whatever follows it, and `iNdEx` moves by its length.
pub read_varint-varint :
    (v i : ℕ) (rest : Bytes)
    → v < 2 ^ 64
    → read_varint (varint v ++ rest) i ≡ ok (v, i + length (varint v), rest)
unfolding read_varint
read_varint-varint v i rest h =
    read_loop-groups 9 v 0 0 i rest (omega arith) (omega arith) (omega arith) (omega arith)
    ∙ ground arith

-- The bytes in front, and what follows them.
pub slice-append :
    (bs rest : Bytes) (low high : ℕ)
    → high ≡ low + length bs
    → high < 2 ^ 63
    → slice low high (bs ++ rest) ≡ ok (bs, rest)
slice-append bs rest low high e b =
    let n : high - low ≡ length bs = omega arith in
    slice-ok low high (bs ++ rest) (omega arith) (omega (arith, length-append bs rest)) b
    ∙ rw n (rw (take-append bs rest, drop-append bs rest) refl)

-- A field of a length and its bytes is read back, where the input is no longer than an int can say.
pub read_delimited-varint :
    (s rest : Bytes) (l i : ℕ)
    → l < 2 ^ 63
    → i + length (varint (length s)) + length s ≤ l
    → read_delimited l (varint (length s) ++ (s ++ rest)) i
      ≡ ok (s, i + length (varint (length s)) + length s, rest)
unfolding read_delimited
read_delimited-varint s rest l i h fits =
    let w : ℕ = i + length (varint (length s)) in
    let post : (w + length s) % 2 ^ 64 ≡ w + length s = omega arith in
    rw (read_varint-varint (length s) i (s ++ rest) (omega arith))
      (rw (post, slice-append s rest w (w + length s) refl (omega arith)) (ground arith))
