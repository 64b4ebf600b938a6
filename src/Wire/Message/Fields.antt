-- ===== src/Wire/Message/Fields.antt =====
-- What the generated loop makes of an input that is a sequence of known fields.
use bluechip_chain_official.Prelude.{
  ◌++◌, ◌>>=◌, ◌∙◌, length-append, append_assoc, ℕ, zero, suc, ◌+◌, ◌/◌, ◌%◌, ◌^◌, ◌≤◌, ◌<◌, ◌≡◌,
  ◌≢◌, arith, Bytes, [], ◌∷◌, Outcome, ok, err, panic, stuck, refl, length,
}
use bluechip_chain_official.Prelude.Bits.{bit_and_seven}
use bluechip_chain_official.Wire.Leb.{groups_small, length-groups, varint, delimited}
use bluechip_chain_official.Wire.Read.{read_varint, read_delimited}
use bluechip_chain_official.Wire.Read.Decode.{
  read_varint-varint, read_delimited-varint, slice-append,
}
use bluechip_chain_official.Wire.Message.{
  next, unknown, skip_unknown, Handler, field_step, unmarshal_loop,
}

-- A number below 128 is read from one byte.
pub read_small :
    (tag i : ℕ) (rest : Bytes) → tag < 128 → read_varint (tag ∷ rest) i ≡ ok (tag, i + 1, rest)
read_small tag i rest h =
    let small = groups_small 9 tag h in rw small at (read_varint-varint tag i rest (omega arith))

abbrev placed : {P : Type 0} → P → ℕ → Bytes → Outcome (P × ℕ × Bytes)
placed p i rest = ok (p, i, rest)

nested_content :
    {P M : Type 0} (r : Outcome P) (k : P → M) (i : ℕ) (rest : Bytes)
    → ((r >>= λ p. placed p i rest) >>= λ y. ok (next (k y.0) y.1 y.2))
      ≡ ((r >>= λ p. ok (k p)) >>= λ z. ok (next z i rest))
nested_content (ok p) k i rest = refl
nested_content (err e) k i rest = refl
nested_content panic k i rest = refl
nested_content stuck k i rest = refl

-- A field that is read and then made part of the message, or made part of it while it is read.
pub nested_field :
    {P M : Type 0} (r : Outcome (Bytes × ℕ × Bytes)) (u : Bytes → Outcome P) (k : P → M)
    → ((r >>= λ x. u x.0 >>= λ p. placed p x.1 x.2) >>= λ y. ok (next (k y.0) y.1 y.2))
      ≡ (r >>= λ x. (u x.0 >>= λ p. ok (k p)) >>= λ z. ok (next z x.1 x.2))
nested_field (ok x) u k = nested_content (u x.0) k x.1 x.2
nested_field (err e) u k = refl
nested_field panic u k = refl
nested_field stuck u k = refl

module _ {M : Type 0} (skip_field : Bytes → Outcome ℕ) (keep : Bytes → M → M) (h : Handler M)
    (l : ℕ) where
  -- From `m`, at `i` of an input of length `l`, the loop reads `src` to the end and leaves `m'`.
  abbrev pub Decodes : Bytes → ℕ → M → M → Type 0
  Decodes src i m m' =
      (rounds : ℕ) → length src ≤ rounds → unmarshal_loop skip_field keep h l rounds src i m ≡ ok m'

  pub Decodes-end : (i : ℕ) (m : M) → i ≤ l → Decodes [] i m m
  unfolding unmarshal_loop
  Decodes-end i m b rounds e = ground arith

  field_step-next :
      (tag i i' : ℕ) (m m' : M) (src rest : Bytes)
      → 8 ≤ tag
      → tag < 128
      → tag % 8 ≢ 4
      → h (tag / 8) (tag % 8) l src (i + 1) m ≡ ok (next m' i' rest)
      → field_step skip_field keep h l (tag ∷ src) i m ≡ ok (m', i', rest)
  unfolding field_step
  field_step-next tag i i' m m' src rest lo hi ne step =
      let field : tag / 8 % 2 ^ 32 ≡ tag / 8 = omega arith in
      rw (read_small tag i src hi) (rw (bit_and_seven tag, field) (ground arith))

  -- A known field in front: its tag, and what the handler takes behind it.
  pub Decodes-field :
      (tag i i' : ℕ) (m m' m'' : M) (src rest : Bytes)
      → 8 ≤ tag
      → tag < 128
      → tag % 8 ≢ 4
      → length rest ≤ length src
      → h (tag / 8) (tag % 8) l src (i + 1) m ≡ ok (next m' i' rest)
      → Decodes rest i' m' m''
      → Decodes (tag ∷ src) i m m''
  unfolding unmarshal_loop
  Decodes-field tag i i' m m' m'' src rest lo hi ne b step then' zero e = absurd (omega arith)
  Decodes-field tag i i' m m' m'' src rest lo hi ne b step then' (suc rounds) e =
      rw (field_step-next tag i i' m m' src rest lo hi ne step) (then' rounds (omega arith))

  -- A length-delimited field, whose content the handler makes part of the message by `f`.
  pub Decodes-delimited :
      (f : Bytes → M → Outcome M) (tag : ℕ) (s : Bytes) (i : ℕ) (m m' m'' : M) (rest : Bytes)
      → ((src : Bytes) (j : ℕ)
          → h (tag / 8) (tag % 8) l src j m
            ≡ (read_delimited l src j >>= λ r. f r.0 m >>= λ x. ok (next x r.1 r.2)))
      → 8 ≤ tag
      → tag < 128
      → tag % 8 ≢ 4
      → l < 2 ^ 63
      → i + length (delimited tag s) ≤ l
      → f s m ≡ ok m'
      → Decodes rest (i + length (delimited tag s)) m' m''
      → Decodes (delimited tag s ++ rest) i m m''
  Decodes-delimited f tag s i m m' m'' rest eq lo hi ne fits room sets k =
      let w : ℕ = length (varint (length s)) in
      let len : length (delimited tag s) ≡ 1 + w + length s =
        omega (arith, length-append (varint (length s)) s) in
      let stop : i + length (delimited tag s) ≡ i + 1 + w + length s = omega arith in
      let step = eq (varint (length s) ++ (s ++ rest)) (i + 1) in
      rw (append_assoc (varint (length s)) s rest) (
        Decodes-field tag i (i + 1 + w + length s) m m' m'' (varint (length s) ++ (s ++ rest)) rest
          lo hi ne
          (omega (arith, length-append (varint (length s)) (s ++ rest), length-append s rest))
          (step ∙ rw (read_delimited-varint s rest l (i + 1) fits (omega arith)) (rw sets))
          (rw stop at k))

  -- One round that comes back with less, and then the rest.
  Decodes-step :
      (here rest : Bytes) (i i' : ℕ) (m m' m'' : M)
      → length rest < length here
      → field_step skip_field keep h l here i m ≡ ok (m', i', rest)
      → Decodes rest i' m' m''
      → Decodes here i m m''
  unfolding unmarshal_loop
  Decodes-step [] rest i i' m m' m'' b step k rounds e = absurd (omega arith)
  Decodes-step (x ∷ src) rest i i' m m' m'' b step k zero e = absurd (omega arith)
  Decodes-step (x ∷ src) rest i i' m m' m'' b step k (suc rounds) e =
      rw step (k rounds (omega arith))

  -- A field that the handler does not know is skipped, and its bytes are kept by `keep`.
  module _ (tag : ℕ) (payload : Bytes) (rest : Bytes) (lo : 8 ≤ tag) (hi : tag < 2 ^ 32)
      (ne : tag % 8 ≢ 4) (fits : l < 2 ^ 63)
      (skips : skip_field ((varint tag ++ payload) ++ rest) ≡ ok (length (varint tag ++ payload)))
      (foreign : (src : Bytes) (j : ℕ) (m : M) → h (tag / 8) (tag % 8) l src j m ≡ ok unknown) where
    field_step-unknown :
        (i : ℕ) (m : M)
        → i + length (varint tag ++ payload) ≤ l
        → field_step skip_field keep h l ((varint tag ++ payload) ++ rest) i m
          ≡ ok (keep (varint tag ++ payload) m, i + length (varint tag ++ payload), rest)
    unfolding field_step skip_unknown
    field_step-unknown i m room =
        let whole = varint tag ++ payload in
        let field : tag / 8 % 2 ^ 32 ≡ tag / 8 = omega arith in
        let read : read_varint (whole ++ rest) i
            ≡ ok (tag, i + length (varint tag), payload ++ rest) =
          rw (append_assoc (varint tag) payload rest)
            (read_varint-varint tag i (payload ++ rest) (omega arith)) in
        let post : (i + length whole) % 2 ^ 64 ≡ i + length whole = omega arith in
        rw read (
          rw
            (
              bit_and_seven tag,
              field,
              foreign (payload ++ rest) (i + length (varint tag)) m,
              skips,
              post,
              slice-append whole rest i (i + length whole) refl (omega arith),
            )
            (ground arith))

    pub Decodes-unknown :
        (i : ℕ) (m m'' : M)
        → i + length (varint tag ++ payload) ≤ l
        → Decodes rest (i + length (varint tag ++ payload)) (keep (varint tag ++ payload) m) m''
        → Decodes ((varint tag ++ payload) ++ rest) i m m''
    Decodes-unknown i m m'' room k =
        let whole = varint tag ++ payload in
        let less : length rest < length (whole ++ rest) = omega (
          arith,
          length-append whole rest,
          length-append (varint tag) payload,
          (length-groups 9 tag).0,
        ) in
        Decodes-step (whole ++ rest) rest i (i + length whole) m (keep whole m) m'' less
          (field_step-unknown i m room) k
