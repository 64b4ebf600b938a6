-- ===== src/Wire/Message/Total.antt =====
-- The generated loop comes back on every input.
use bluechip_chain_official.Prelude.{
  ℕ, zero, suc, ◌+◌, ◌/◌, ◌%◌, ◌^◌, ◌≤◌, ◌<◌, ◌≡◌, arith, bit_and, ◌||◌, ◌&&◌, Bytes, [], ◌∷◌,
  Outcome, leb, ltb, ◌==◌, length, Yields, Yields->>=, Yields-fail_if,
}
use bluechip_chain_official.Wire.Read.{read_varint, slice}
use bluechip_chain_official.Wire.Read.Progress.{
  TakesValue, Indexed, Sliced, slice-Sliced, read_varint_takes,
}
use bluechip_chain_official.Wire.Message.{
  Handled, next, unknown, Handler, skip_unknown, field_step, unmarshal_loop, unmarshal_into,
}

-- What a case of the switch leaves behind is counted by `iNdEx`.
abbrev pub Keeps : {M : Type 0} → Bytes → ℕ → Handled M → Type 0
Keeps src i (next m i' rest) = (length rest ≤ length src) × (i' + length rest ≡ i + length src)
Keeps src i unknown = Unit

-- A handler that comes back, whatever it is given.
abbrev pub IsTotal : {M : Type 0} → Handler M → Type 0
IsTotal {M} h =
    (field t l : ℕ) (src : Bytes) (i : ℕ) (m : M)
    → Indexed l src i
    → Yields (Keeps src i) (h field t l src i m)

module _ {M : Type 0} (skip_field : Bytes → Outcome ℕ) (keep : Bytes → M → M) (h : Handler M) where
  module _ (moves : (src : Bytes) → Yields (λ n. 0 < n) (skip_field src)) (total : IsTotal h) where
    skip_unknown_takes :
        (l : ℕ) (here rest : Bytes) (pre i : ℕ) (m : M) (r : Handled M)
        → Indexed l here pre
        → length rest < length here
        → i + length rest ≡ l
        → Keeps rest i r
        → Yields (TakesValue here pre) (skip_unknown skip_field keep l here pre m r)
    unfolding skip_unknown
    skip_unknown_takes l here rest pre i m (next m' i' rest') a b c k = omega arith
    skip_unknown_takes l here rest pre i m unknown a b c k =
        let Q : M × ℕ × Bytes → Type 0 = TakesValue here pre in
        Yields->>= (λ n. 0 < n) Q (skip_field here) _ (moves here)
          λ n pos.
            let post = (pre + n) % 2 ^ 64 in
            Yields-fail_if Q (leb (2 ^ 63) n || leb (2 ^ 63) post) _ _ λ small.
              Yields-fail_if Q (ltb l post && ltb post (2 ^ 63)) _ _ λ inside.
                Yields->>= (Sliced pre post here) Q (slice pre post here) _
                  (slice-Sliced pre post here (ground arith) (ground arith) (ground arith))
                  λ x cut. ground arith

    field_step_takes :
        (l : ℕ) (here : Bytes) (pre : ℕ) (m : M)
        → Indexed l here pre
        → Yields (TakesValue here pre) (field_step skip_field keep h l here pre m)
    unfolding field_step
    field_step_takes l here pre m e =
        let Q : M × ℕ × Bytes → Type 0 = TakesValue here pre in
        Yields->>= (TakesValue here pre) Q (read_varint here pre) _ (read_varint_takes here pre)
          λ r taken.
            let field = r.0 / 8 % 2 ^ 32 in
            let t = bit_and r.0 0x7 in
            Yields-fail_if Q (t == 4) _ _ λ _.
              Yields-fail_if Q (field == 0 || leb (2 ^ 31) field) _ _ λ _.
                Yields->>= (Keeps r.2 r.1) Q (h field t l r.2 r.1 m) _
                  (total field t l r.2 r.1 m (omega arith))
                  λ s kept.
                    skip_unknown_takes l here r.2 pre r.1 m s e (omega arith) (omega arith) kept

    unmarshal_loop_total :
        (l rounds : ℕ) (src : Bytes) (i : ℕ) (m : M)
        → Indexed l src i
        → length src ≤ rounds
        → Yields (λ _. Unit) (unmarshal_loop skip_field keep h l rounds src i m)
    unfolding unmarshal_loop
    unmarshal_loop_total l rounds [] i m e b = ground arith
    unmarshal_loop_total l zero (x ∷ src) i m e b = absurd (omega arith)
    unmarshal_loop_total l (suc rounds) (x ∷ src) i m e b =
        Yields->>= (TakesValue (x ∷ src) i) (λ _. Unit)
          (field_step skip_field keep h l (x ∷ src) i m) _ (field_step_takes l (x ∷ src) i m e)
          λ r taken. unmarshal_loop_total l rounds r.2 r.1 r.0 (omega arith) (omega arith)

    -- Every input of a length that an int holds ends in a message or in an error.
    pub unmarshal_into_total :
        (src : Bytes) (m : M)
        → length src < 2 ^ 63
        → Yields (λ _. Unit) (unmarshal_into skip_field keep h src m)
    unfolding unmarshal_into
    unmarshal_into_total src m fits =
        unmarshal_loop_total (length src) (length src) src 0 m (omega arith) (omega arith)
