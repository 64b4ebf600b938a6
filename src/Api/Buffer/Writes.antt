-- ===== src/Api/Buffer/Writes.antt =====
-- What the steps of `marshal` write, and that `size` counts it.
use bluechip_chain_official.Prelude.{
  ℕ, ◌+◌, ◌^◌, ◌<◌, ◌≤◌, ◌≡◌, refl, ◌∙◌, arith, Option, none, some, Bytes, [], ◌∷◌, ◌++◌, Outcome,
  ok, ◌>>=◌, ltb, if◌then◌else◌, length, replicate, length-append, length-replicate, append_assoc,
  append-nil,
}
use bluechip_chain_official.Wire.Leb.{varint, delimited}
use bluechip_chain_official.Wire.Buffer.{Cursor, put_byte, put_string}
use bluechip_chain_official.Wire.Buffer.Writes.{
  Writes, Writes-then, Writes-if, put_byte-Writes, put_string-Writes,
}
use bluechip_chain_official.Api.Runtime.{Runtime, RuntimeLaws, contents}
use bluechip_chain_official.Api.Buffer.{
  append_unknown, unknown_size, put_unknown, appended, filled, text_size, put_length, put_block,
  put_text,
}

-- A string field is left out where it is empty, a message where it is nil.
abbrev pub text_bytes : ℕ → Bytes → Bytes
text_bytes tag s = if ltb 0 (length s) then delimited tag s else []

abbrev pub message_bytes : {P : Type 0} → (P → Bytes) → ℕ → Option P → Bytes
message_bytes encode tag none = []
message_bytes encode tag (some p) = delimited tag (encode p)

-- The caller's buffer and what follows it.
abbrev pub after : Option Bytes → Bytes → Option Bytes
after none out = some out
after (some buf) out = some (buf ++ out)

pub Writes-nothing : Writes ok []
Writes-nothing front [] back e = rw append-nil
Writes-nothing front (x ∷ junk) back e = absurd (omega arith)

pub put_unknown-Writes : (u : Option Bytes) → Writes (put_unknown u) (contents u)
unfolding put_unknown
put_unknown-Writes none = Writes-nothing
put_unknown-Writes (some u) = put_string-Writes u

pub unknown_size-length : (u : Option Bytes) → unknown_size u ≡ length (contents u)
unfolding unknown_size
unknown_size-length none = refl
unknown_size-length (some u) = refl

pub contents_append :
    (u : Option Bytes) (bs : Bytes) → contents (append_unknown u bs) ≡ contents u ++ bs
unfolding append_unknown
contents_append none [] = refl
contents_append none (b ∷ bs) = refl
contents_append (some u) bs = refl

pub text_fits : (tag : ℕ) (s : Bytes) → length s ≤ length (text_bytes tag s)
text_fits tag s = ground (arith, length-append (varint (length s)) s)

-- A buffer of the size of what is written is filled exactly.
pub filled_lem :
    (put : Cursor → Outcome Cursor) (ws : Bytes) (size : ℕ) (buf : Option Bytes)
    → Writes put ws
    → size ≡ length ws
    → filled size put buf ≡ ok (appended buf ws)
unfolding filled
filled_lem put ws size buf h e =
    let room : Bytes = replicate size 0 in
    let len : length room ≡ length ws = length-replicate {A = ℕ} size 0 ∙ e in
    let whole = h [] room [] len in
    let start = rw (append-nil {A = ℕ} room, append-nil {A = ℕ} ws) at whole in rw start

module _ (r : Runtime) (laws : RuntimeLaws r) where
  put_length-Writes : (v : ℕ) → v < 2 ^ 64 → Writes (put_length r v) (varint v)
  unfolding put_length
  put_length-Writes v h front junk back e = rw (
    append_assoc front junk back,
    length-append front junk,
    laws.encode_varint_lem v front junk back h e,
  )

  pub put_block-Writes :
      (tag : ℕ) (s : Bytes) → length s < 2 ^ 64 → Writes (put_block r tag s) (delimited tag s)
  unfolding put_block
  put_block-Writes tag s h =
      Writes-then (put_string s) (λ c. put_length r (length s) c >>= put_byte tag) s
        (tag ∷ varint (length s)) (put_string-Writes s)
        (Writes-then (put_length r (length s)) (put_byte tag) (varint (length s)) (tag ∷ [])
          (put_length-Writes (length s) h) (put_byte-Writes tag))

  pub put_text-Writes :
      (tag : ℕ) (s : Bytes) → length s < 2 ^ 63 → Writes (put_text r tag s) (text_bytes tag s)
  unfolding put_text
  put_text-Writes tag s h =
      Writes-if (put_block r tag s) (ltb 0 (length s)) (delimited tag s)
        (put_block-Writes tag s (omega arith))

  pub length-delimited :
      (tag : ℕ) (s : Bytes)
      → length s < 2 ^ 63
      → length (delimited tag s) ≡ 1 + length s + r.sov (length s)
  length-delimited tag s h =
      omega (arith, length-append (varint (length s)) s, laws.sov_lem (length s) (omega arith))

  pub text_size-length :
      (tag : ℕ) (s : Bytes) → length s < 2 ^ 63 → text_size r s ≡ length (text_bytes tag s)
  unfolding text_size
  text_size-length tag s h = ground (arith, length-delimited tag s h)
