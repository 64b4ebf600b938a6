-- ===== src/Wire/Read/Progress.antt =====
-- Reading on any input, well formed or not: it comes back, and what it takes is what `iNdEx` says.
use bluechip_chain_official.Prelude.{
  ℕ, zero, suc, ◌+◌, ◌*◌, ◌%◌, ◌^◌, ◌≤◌, ◌<◌, ◌≡◌, arith, bit_and, bit_or, Bytes, [], ◌∷◌, ◌&&◌,
  leb, ltb, ◌==◌, length, length-drop, length-take, ◌-◌, Yields, Yields->>=, Yields-fail_if,
  Yields-if, Yields-weaken,
}
use bluechip_chain_official.Wire.Read.{
  read_loop, read_varint, pass_varint, skip_value, skip_loop, skip, read_delimited, slice, slice-ok,
}

-- A byte at least was taken, and `iNdEx` counts what was taken.
abbrev pub Takes : Bytes → ℕ → ℕ × Bytes → Type 0
Takes src i (i', rest) = (length rest < length src) × (i' + length rest ≡ i + length src)

abbrev pub TakesValue {ℓ} : {A : Type ℓ} → Bytes → ℕ → A × ℕ × Bytes → Type 0
TakesValue src i (v, i', rest) = Takes src i (i', rest)

-- The bytes that are taken are some of those.
abbrev pub TakesBytes : Bytes → ℕ → Bytes × ℕ × Bytes → Type 0
TakesBytes src i (bs, i', rest) = (length bs ≤ length src) × Takes src i (i', rest)

Takes-later :
    (b : ℕ) (src : Bytes) (i : ℕ) (p : ℕ × Bytes) → Takes src (i + 1) p → Takes (b ∷ src) i p
Takes-later b src i p h = omega arith

read_loop_takes :
    (src : Bytes) (shift acc i : ℕ) → Yields (TakesValue src i) (read_loop src shift acc i)
unfolding read_loop
read_loop_takes [] shift acc i = ground arith
read_loop_takes (b ∷ src) shift acc i =
    let acc' = bit_or acc (bit_and b 0x7f * 2 ^ shift % 2 ^ 64) in
    let Q : ℕ × ℕ × Bytes → Type 0 = TakesValue (b ∷ src) i in
    Yields-if Q (leb 64 shift) _ _ (λ _. tt)
      λ _.
        Yields-if Q (ltb b 0x80) _ _ (λ _. omega arith)
          λ _.
            Yields-weaken (TakesValue src (i + 1)) Q (read_loop src (shift + 7) acc' (i + 1))
              (λ a h. Takes-later b src i (a.1, a.2) h)
              (read_loop_takes src (shift + 7) acc' (i + 1))

pub read_varint_takes : (src : Bytes) (i : ℕ) → Yields (TakesValue src i) (read_varint src i)
unfolding read_varint
read_varint_takes src i = read_loop_takes src 0 0 i

pass_varint-Takes : (src : Bytes) (shift i : ℕ) → Yields (Takes src i) (pass_varint src shift i)
unfolding pass_varint
pass_varint-Takes [] shift i = ground arith
pass_varint-Takes (b ∷ src) shift i =
    let Q : ℕ × Bytes → Type 0 = Takes (b ∷ src) i in
    Yields-if Q (leb 64 shift) _ _ (λ _. tt)
      λ _.
        Yields-if Q (ltb b 0x80) _ _ (λ _. omega arith)
          λ _.
            Yields-weaken (Takes src (i + 1)) Q (pass_varint src (shift + 7) (i + 1))
              (λ a h. Takes-later b src i a h) (pass_varint-Takes src (shift + 7) (i + 1))

-- Behind a value `iNdEx` has not gone back, and no more is left than before.
abbrev Passes : Bytes → ℕ → ℕ × Bytes × ℕ → Type 0
Passes src i (i', rest, depth) = (length rest ≤ length src) × (i ≤ i')

skip_value-Passes :
    (t : ℕ) (src : Bytes) (i depth : ℕ) → Yields (Passes src i) (skip_value t src i depth)
unfolding skip_value
skip_value-Passes t src i depth =
    let Q : ℕ × Bytes × ℕ → Type 0 = Passes src i in
    Yields-if Q (t == 0) _ _
      (λ _.
        Yields->>= (Takes src i) Q (pass_varint src 0 i) _ (pass_varint-Takes src 0 i)
          (λ a h. omega arith))
      λ _.
        Yields-if Q (t == 1) _ _ (λ _. omega (arith, length-drop 8 src))
          λ _.
            Yields-if Q (t == 2) _ _
              (λ _.
                Yields->>= (TakesValue src i) Q (read_varint src i) _ (read_varint_takes src i)
                  (λ a h.
                    Yields-fail_if Q (leb (2 ^ 63) a.0) _ _
                      (λ _. omega (arith, length-drop a.0 a.2))))
              λ _.
                Yields-if Q (t == 3) _ _ (λ _. omega arith)
                  λ _.
                    Yields-if Q (t == 4) _ _
                      (λ _. Yields-fail_if Q (depth == 0) _ _ (λ _. omega arith))
                      λ _. Yields-if Q (t == 5) _ _ (λ _. omega (arith, length-drop 4 src)) λ _. tt

skip_loop_moves :
    (rounds : ℕ) (src : Bytes) (i depth : ℕ)
    → length src ≤ rounds
    → Yields (λ n. i < n) (skip_loop rounds src i depth)
unfolding skip_loop
skip_loop_moves rounds [] i depth h = tt
skip_loop_moves zero (b ∷ bs) i depth h = absurd (omega arith)
skip_loop_moves (suc rounds) (b ∷ bs) i depth h =
    let Q : ℕ → Type 0 = λ n. i < n in
    Yields->>= (TakesValue (b ∷ bs) i) Q (read_varint (b ∷ bs) i) _ (read_varint_takes (b ∷ bs) i)
      λ r taken.
        Yields->>= (Passes r.2 r.1) Q (skip_value (bit_and r.0 0x7) r.2 r.1 depth) _
          (skip_value-Passes (bit_and r.0 0x7) r.2 r.1 depth)
          λ s passed. Yields-fail_if Q (leb (2 ^ 63) s.0) _ _ λ _.
            Yields-if Q (s.2 == 0) _ _ (λ _. omega arith)
              λ _.
                Yields-weaken (λ n. s.0 < n) Q (skip_loop rounds s.1 s.0 s.2) (λ n k. omega arith)
                  (skip_loop_moves rounds s.1 s.0 s.2 (omega arith))

-- On every input `skip` comes back, and what it skips is not empty.
pub skip_moves : (src : Bytes) → Yields (λ n. 0 < n) (skip src)
unfolding skip
skip_moves src = skip_loop_moves (length src) src 0 0 (omega arith)

-- `iNdEx` counts what was taken of an input of length `l`, which an int holds.
abbrev pub Indexed : ℕ → Bytes → ℕ → Type 0
Indexed l src i = (i + length src ≡ l) × (l < 2 ^ 63)

-- Between bounds that are in range `slice` comes back, and `iNdEx` is then its upper bound.
abbrev pub Sliced : ℕ → ℕ → Bytes → Bytes × Bytes → Type 0
Sliced low high rest (bs, rest') =
    (length bs ≡ high - low) × (high + length rest' ≡ low + length rest)

pub slice-Sliced :
    (low high : ℕ) (rest : Bytes)
    → low ≤ high
    → high ≤ low + length rest
    → high < 2 ^ 63
    → Yields (Sliced low high rest) (slice low high rest)
slice-Sliced low high rest a b c =
    rw (slice-ok low high rest a b c)
      (length-take (high - low) rest (omega arith), omega (arith, length-drop (high - low) rest))

-- What a length-delimited field takes: never more than there is.
pub read_delimited_takes :
    (src : Bytes) (l i : ℕ) → Indexed l src i → Yields (TakesBytes src i) (read_delimited l src i)
unfolding read_delimited
read_delimited_takes src l i h =
    let Q : Bytes × ℕ × Bytes → Type 0 = TakesBytes src i in
    Yields->>= (TakesValue src i) Q (read_varint src i) _ (read_varint_takes src i) λ r taken.
      Yields-fail_if Q (leb (2 ^ 63) r.0) _ _ λ small.
        let post = (r.1 + r.0) % 2 ^ 64 in
        Yields-fail_if Q (leb (2 ^ 63) post) _ _ λ positive.
          Yields-fail_if Q (ltb l post && ltb post (2 ^ 63)) _ _ λ inside.
            Yields->>= (Sliced r.1 post r.2) Q (slice r.1 post r.2) _
              (slice-Sliced r.1 post r.2 (ground arith) (ground arith) (ground arith))
              λ x cut. ground arith
