-- ===== src/Wire/Varint/Encode.antt =====
-- `encodeVarintParams` fills the bytes below its offset with the encoding, and no other.
use bluechip_chain_official.Prelude.{
  ℕ, zero, suc, ◌+◌, ◌-◌, ◌/◌, ◌%◌, ◌^◌, ◌≤◌, ◌<◌, ◌≡◌, sym, ◌∙◌, ap, arith, bit_and, bit_or, Bytes,
  [], ◌∷◌, ◌++◌, ok, ltb, length, length-append, set-append, uncons, append_assoc, lt→ltb, le→leb,
  false,
}
use bluechip_chain_official.Prelude.Bits.{bit_and_7f, set_top_bit}
use bluechip_chain_official.Wire.Leb.{groups, varint, groups_small, groups_more}
use bluechip_chain_official.Wire.Varint.{store, encode_varint_loop, encode_varint, sov}
use bluechip_chain_official.Wire.Varint.Width.{sov-length}
use native.Mathlib.Decide.{dec_lt}

pub store_at :
    (front rest : Bytes) (x b : ℕ)
    → store (front ++ x ∷ rest) (length front) b ≡ ok (front ++ b ∷ rest)
unfolding store
store_at front rest x b =
    rw
      (lt→ltb (length front) (length (front ++ x ∷ rest))
        (omega (arith, length-append front (x ∷ rest))))
      (ap ok (set-append front rest x b))

group_byte : (v : ℕ) → bit_or (bit_and v 0x7f) 0x80 % 256 ≡ v % 128 + 128
group_byte v = rw (bit_and_7f v, set_top_bit (v % 128) (omega arith)) (omega arith)

lt_false : (m n : ℕ) → ltb (m + n) n ≡ false
lt_false m n = ground arith

-- The last round, on a number below 128.
last_group :
    (rounds v : ℕ) (front junk back : Bytes)
    → v < 128
    → length junk ≡ 1
    → encode_varint_loop (suc rounds) (front ++ (junk ++ back)) (length front) v
      ≡ ok (front ++ (v ∷ back))
unfolding encode_varint_loop
last_group rounds v front [] back h e = absurd (omega arith)
last_group rounds v front (x ∷ y ∷ junk) back h e = absurd (omega arith)
last_group rounds v front (x ∷ []) back h e = ground (arith, store_at front back x (v % 256))

inner_group :
    (rounds v : ℕ) (front rest : Bytes) (x : ℕ)
    → 128 ≤ v
    → encode_varint_loop (suc rounds) (front ++ x ∷ rest) (length front) v
      ≡ encode_varint_loop rounds
          ((front ++ (v % 128 + 128) ∷ []) ++ rest)
          (length (front ++ (v % 128 + 128) ∷ []))
          (v / 128)
unfolding encode_varint_loop
inner_group rounds v front rest x h = rw (
  le→leb (2 ^ 7) v h,
  group_byte v,
  store_at front rest x (v % 128 + 128),
  append_assoc front ((v % 128 + 128) ∷ []) rest,
  length-append front ((v % 128 + 128) ∷ []),
)

loop-groups :
    (k rounds v : ℕ) (front junk back : Bytes)
    → k < rounds
    → v < 128 ^ suc k
    → length junk ≡ length (groups k v)
    → encode_varint_loop rounds (front ++ (junk ++ back)) (length front) v
      ≡ ok (front ++ (groups k v ++ back))
loop-groups k zero v front junk back r h e = absurd (omega arith)
loop-groups zero (suc rounds) v front junk back r h e =
    unfold groups in last_group rounds v front junk back h e
loop-groups (suc k) (suc rounds) v front junk back r h e = elim (dec_lt v 128) [
  | yes p ↦
      let small = groups_small (suc k) v p in
      rw small (last_group rounds v front junk back p (e ∙ ap length small))
  | no p ↦
      let more = groups_more k v (omega arith) in
      let (x, rest, split, left) = uncons (length (groups k (v / 128))) junk (e ∙ ap length more) in
      rw (more, split)
        (inner_group rounds v front (rest ++ back) x (omega arith)
          ∙ loop-groups k rounds (v / 128) (front ++ (v % 128 + 128) ∷ []) rest back (omega arith)
              (omega arith) left
          ∙ ap ok (append_assoc front ((v % 128 + 128) ∷ []) (groups k (v / 128) ++ back)))
]

-- With room for it below the offset, the encoding of a uint64 is written just there, and the base of
-- what is written is returned.
pub encode_varint_at :
    (v : ℕ) (front junk back : Bytes)
    → v < 2 ^ 64
    → length junk ≡ length (varint v)
    → encode_varint (front ++ (junk ++ back)) (length front + length junk) v
      ≡ ok (front ++ (varint v ++ back), length front)
unfolding encode_varint
encode_varint_at v front junk back h e =
    let width : sov v ≡ length junk = sov-length v h ∙ sym e in
    let base : length front + length junk - length junk ≡ length front = omega arith in
    rw (width, lt_false (length front) (length junk), base)
      (rw (loop-groups 9 10 v front junk back (omega arith) (omega arith) e))
