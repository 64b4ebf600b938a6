-- ===== src/Wire/Varint/Width.antt =====
-- `sov` is the length of the encoding that it makes room for.
use bluechip_chain_official.Prelude.{
  Bytes, ltb, if◌then◌else◌, ◌+◌, length-append, ℕ, zero, suc, ◌*◌, ◌/◌, ◌^◌, ◌≤◌, ◌<◌, ◌≡◌, ◌≢◌,
  sym, ◌∙◌, arith, length, ap,
}
use bluechip_chain_official.Prelude.Bits.{bit_or-one}
use bluechip_chain_official.Wire.Varint.{digit_count, len64, sov}
use bluechip_chain_official.Wire.Leb.{groups, varint, string_bytes, length-groups_odd, groups_small}
use native.Mathlib.Nat.{pow-suc}
use native.Mathlib.Decide.{dec_lt}

digit_count_step :
    (rounds x : ℕ) → x ≢ 0 → digit_count (suc rounds) x ≡ suc (digit_count rounds (x / 2))
unfolding digit_count
digit_count_step rounds x h = ground arith

digit_count-le : (rounds x j : ℕ) → x < 2 ^ j → digit_count rounds x ≤ j
unfolding digit_count
digit_count-le zero x j h = omega arith
digit_count-le (suc rounds) x zero h = ground arith
digit_count-le (suc rounds) x (suc j) h =
    ground (arith, pow-suc 2 j, digit_count-le rounds (x / 2) j)

-- One more round changes nothing where the rounds are enough.
digit_count_more :
    (rounds x : ℕ) → x < 2 ^ rounds → digit_count (suc rounds) x ≡ digit_count rounds x
unfolding digit_count
digit_count_more zero x h = ground arith
digit_count_more (suc rounds) x h =
    ground (arith, pow-suc 2 rounds, digit_count_more rounds (x / 2))

abbrev seven_more : ℕ → ℕ
seven_more n = suc (suc (suc (suc (suc (suc (suc n))))))

digit_count_group :
    (rounds x : ℕ)
    → 64 ≤ x
    → digit_count (seven_more rounds) x ≡ seven_more (digit_count rounds (x / 128))
digit_count_group rounds x h = omega (
  arith,
  digit_count_step (suc (suc (suc (suc (suc (suc rounds)))))) x (omega arith),
  digit_count_step (suc (suc (suc (suc (suc rounds))))) (x / 2) (omega arith),
  digit_count_step (suc (suc (suc (suc rounds)))) (x / 2 / 2) (omega arith),
  digit_count_step (suc (suc (suc rounds))) (x / 2 / 2 / 2) (omega arith),
  digit_count_step (suc (suc rounds)) (x / 2 / 2 / 2 / 2) (omega arith),
  digit_count_step (suc rounds) (x / 2 / 2 / 2 / 2 / 2) (omega arith),
  digit_count_step rounds (x / 2 / 2 / 2 / 2 / 2 / 2) (omega arith),
  ap (digit_count rounds) (seventh x),
)
  where
    seventh : (x : ℕ) → x / 2 / 2 / 2 / 2 / 2 / 2 / 2 ≡ x / 128
    seventh x = omega arith

-- Seven rounds for each of the `k + 1` groups.
abbrev rounds : ℕ → ℕ
rounds zero = 7
rounds (suc k) = seven_more (rounds k)

digit_count-pos : (n x : ℕ) → x ≢ 0 → 1 ≤ digit_count (suc n) x
digit_count-pos n x h = omega (arith, digit_count_step n x h)

-- The count of groups is the count of digits over seven, rounded up.
digit_count-groups :
    (k x : ℕ) → x ≢ 0 → x < 128 ^ suc k → (digit_count (rounds k) x + 6) / 7 ≡ length (groups k x)
unfolding groups
digit_count-groups zero x h b =
    omega (arith, digit_count-pos 6 x h, digit_count-le 7 x 7 (omega arith))
digit_count-groups (suc k) x h b = elim (dec_lt x 128) [
  | yes p ↦ rw (groups_small (suc k) x p) (
      omega (
        arith,
        digit_count-pos (suc (suc (suc (suc (suc (suc (rounds k))))))) x h,
        digit_count-le (seven_more (rounds k)) x 7 p,
      ))
  | no p ↦ ground (
    arith,
    digit_count_group (rounds k) x (omega arith),
    digit_count-groups k (x / 128) (omega arith) (omega arith),
  )
]

-- Six rounds beyond the 64 of `Len64`, where the rounds of ten groups are seventy.
digit_count_seventy : (x : ℕ) → x < 2 ^ 64 → digit_count 70 x ≡ digit_count 64 x
digit_count_seventy x h =
    digit_count_more 69 x (omega arith)
    ∙ digit_count_more 68 x (omega arith)
    ∙ digit_count_more 67 x (omega arith)
    ∙ digit_count_more 66 x (omega arith)
    ∙ digit_count_more 65 x (omega arith)
    ∙ digit_count_more 64 x (omega arith)

-- For every uint64, `sov` is the length of its encoding, and that is 1 to 10.
pub sov-length : (v : ℕ) → v < 2 ^ 64 → sov v ≡ length (varint v)
unfolding sov len64
sov-length v h = rw bit_or-one (
    ap (λ (t : ℕ). (t + 6) / 7) (sym (digit_count_seventy (v / 2 * 2 + 1) (omega arith)))
    ∙ digit_count-groups 9 (v / 2 * 2 + 1) (omega arith) (omega arith)
    ∙ length-groups_odd 9 v)

-- The width of a string that is the first field, as every `Size` counts it.
pub length-string_bytes :
    (s : Bytes)
    → length s < 2 ^ 63
    → length (string_bytes s) ≡ (if ltb 0 (length s) then 1 + length s + sov (length s) else 0)
length-string_bytes s h =
    ground (arith, length-append (varint (length s)) s, sov-length (length s) (omega arith))

pub string_fits : (s : Bytes) → length s ≤ length (string_bytes s)
string_fits s = ground (arith, length-append (varint (length s)) s)
