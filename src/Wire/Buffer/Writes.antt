-- ===== src/Wire/Buffer/Writes.antt =====
-- A writer is described by the bytes that it puts in front of what is written already.
use bluechip_chain_official.Prelude.{
  ◌^◌, ◌<◌, ℕ, ◌+◌, ◌-◌, ◌^◌, ◌<◌, ◌≡◌, refl, ◌∙◌, ap, arith, Bool, true, false, Bytes, [], ◌∷◌,
  ◌++◌, Outcome, ok, ◌>>=◌, ltb, if◌then◌else◌, length, take, drop, length-append, take-append,
  drop-append, take-append-drop, length-take, length-drop, append_assoc, append-nil,
}
use bluechip_chain_official.Wire.Leb.{varint, delimited}
use bluechip_chain_official.Wire.Varint.Encode.{store_at, encode_varint_at}
use bluechip_chain_official.Wire.Buffer.{Cursor, put_byte, copy, put_string, put_varint}

-- The cursor with `back` written and `front` free.
abbrev pub at_end : Bytes → Bytes → Cursor
at_end front back = record { buf = front ++ back; i = length front }

-- Into room `junk` of their length the writer puts the bytes `ws`, and it changes nothing else.
abbrev pub Writes : (Cursor → Outcome Cursor) → Bytes → Type 0
Writes w ws =
    (front junk back : Bytes)
    → length junk ≡ length ws
    → w (at_end (front ++ junk) back) ≡ ok (at_end front (ws ++ back))

-- Room for two parts is room for the one and room for the other.
pub split_room :
    (m n : ℕ) (junk : Bytes)
    → length junk ≡ m + n
    → (a : Bytes) × (b : Bytes) × (a ++ b ≡ junk) × (length a ≡ m) × (length b ≡ n)
split_room m n junk e = (
  take m junk,
  drop m junk,
  take-append-drop m junk,
  length-take m junk (omega arith),
  omega (arith, length-drop m junk),
)

-- One writer after another: the later one's bytes stand in front.
pub Writes-then :
    (w v : Cursor → Outcome Cursor) (ws vs : Bytes)
    → Writes w ws
    → Writes v vs
    → Writes (λ c. w c >>= v) (vs ++ ws)
Writes-then w v ws vs h k front junk back e =
    let (a, b, whole, la, lb) = split_room (length vs) (length ws) junk (e ∙ length-append vs ws) in
    rw (← whole, ← append_assoc front a b, h (front ++ a) b back lb, append_assoc vs ws back)
      (k front a (ws ++ back) la)

pub Writes-if :
    (w : Cursor → Outcome Cursor) (b : Bool) (ws : Bytes)
    → Writes w ws
    → Writes (λ c. if b then w c else ok c) (if b then ws else [])
Writes-if w true ws h front junk back e = h front junk back e
Writes-if w false ws h front [] back e = rw append-nil
Writes-if w false ws h front (x ∷ junk) back e = absurd (omega arith)

pub put_byte-Writes : (b : ℕ) → Writes (put_byte b) (b ∷ [])
unfolding put_byte
put_byte-Writes b front [] back e = absurd (omega arith)
put_byte-Writes b front (x ∷ y ∷ junk) back e = absurd (omega arith)
put_byte-Writes b front (x ∷ []) back e =
    let len : length (front ++ x ∷ []) ≡ length front + 1 = length-append front (x ∷ []) in
    let base : length front + 1 - 1 ≡ length front = omega arith in
    rw (len, append_assoc front (x ∷ []) back, base) (ground (arith, store_at front back x b))

copy-append :
    (src junk back : Bytes) → length junk ≡ length src → copy (junk ++ back) src ≡ src ++ back
unfolding copy
copy-append [] [] [] e = refl
copy-append [] [] (x ∷ back) e = refl
copy-append [] (x ∷ junk) back e = absurd (omega arith)
copy-append (s ∷ src) [] back e = absurd (omega arith)
copy-append (s ∷ src) (x ∷ junk) back e = ap (λ r. s ∷ r) (copy-append src junk back (omega arith))

pub put_string-Writes : (s : Bytes) → Writes (put_string s) s
unfolding put_string
put_string-Writes s front junk back e =
    let base : length (front ++ junk) - length s ≡ length front =
      omega (arith, length-append front junk) in
    let room : ltb (length (front ++ junk)) (length s) ≡ false =
      ground (arith, length-append front junk) in
    rw (
      room,
      base,
      append_assoc front junk back,
      take-append front (junk ++ back),
      drop-append front (junk ++ back),
      copy-append s junk back e,
    )

pub put_varint-Writes : (v : ℕ) → v < 2 ^ 64 → Writes (put_varint v) (varint v)
unfolding put_varint
put_varint-Writes v h front junk back e =
    rw (
      append_assoc front junk back,
      length-append front junk,
      encode_varint_at v front junk back h e,
    )

-- A length-delimited field: its content, its length and its tag, from the end.
pub delimited-Writes :
    (tag : ℕ) (s : Bytes)
    → length s < 2 ^ 64
    → Writes
        (λ c. put_string s c >>= λ c'. put_varint (length s) c' >>= put_byte tag)
        (delimited tag s)
delimited-Writes tag s h =
    Writes-then (put_string s) (λ c. put_varint (length s) c >>= put_byte tag) s
      (tag ∷ varint (length s)) (put_string-Writes s)
      (Writes-then (put_varint (length s)) (put_byte tag) (varint (length s)) (tag ∷ [])
        (put_varint-Writes (length s) h) (put_byte-Writes tag))
