-- ===== src/Api/Runtime.antt =====
-- What the generated code of api/ calls of github.com/cosmos/cosmos-proto/runtime and of
-- google.golang.org/protobuf/proto, neither of which is code of the repository: a parameter of the
-- model, and what the code relies on.
pub mod Sample
use bluechip_chain_official.Prelude.{
  ℕ, ◌+◌, ◌^◌, ◌<◌, ◌≡◌, Bool, Option, none, some, Bytes, [], ◌++◌, Outcome, ok, ◌>>=◌, length,
  Yields,
}
use bluechip_chain_official.Wire.Leb.{varint}

-- `none` is a nil pointer or a nil slice. A method is given to the library through `ProtoMethods`, so
-- that the functions of a message's options take it as an argument.
pub record Runtime : Type 1 where
  pub sov : ℕ → ℕ
  pub encode_varint : Bytes → ℕ → ℕ → Outcome (Bytes × ℕ)
  pub skip : Bytes → Outcome ℕ
  -- `options.Size`
  pub options_size : {M : Type 0} → (Option M → ℕ) → Option M → ℕ
  -- `options.Marshal`
  pub options_marshal :
      {M : Type 0} → (Option M → Option Bytes → Outcome (Option Bytes)) → Option M → Outcome Bytes
  -- `options.Unmarshal`, with the flag `DiscardUnknown`
  pub options_unmarshal :
      {M : Type 0}
      → (Bool → Bytes → Option M → Outcome (Option M))
      → Bool
      → Bytes
      → Option M
      → Outcome (Option M)

-- The bytes of a slice, of which a nil slice has none.
abbrev pub contents : Option Bytes → Bytes
contents none = []
contents (some s) = s

pub record RuntimeLaws (r : Runtime) : Type 1 where
  pub sov_lem : (v : ℕ) → v < 2 ^ 64 → r.sov v ≡ length (varint v)
  -- The encoding is written just below the offset, where there is room for it.
  pub encode_varint_lem :
      (v : ℕ) (front junk back : Bytes)
      → v < 2 ^ 64
      → length junk ≡ length (varint v)
      → r.encode_varint (front ++ (junk ++ back)) (length front + length junk) v
        ≡ ok (front ++ (varint v ++ back), length front)
  -- A field that is skipped takes a byte at least.
  pub skip_moves : (src : Bytes) → Yields (λ k. 0 < k) (r.skip src)
  -- The options call the message's own method, with no buffer to append to, and merge.
  pub options_size_lem :
      {M : Type 0} (size : Option M → ℕ) (x : Option M) → r.options_size size x ≡ size x
  pub options_marshal_lem :
      {M : Type 0} (marshal : Option M → Option Bytes → Outcome (Option Bytes)) (x : Option M)
      → r.options_marshal marshal x ≡ (marshal x none >>= λ b. ok (contents b))
  pub options_unmarshal_lem :
      {M : Type 0} (unmarshal : Bool → Bytes → Option M → Outcome (Option M)) (discard : Bool)
      (src : Bytes) (x : Option M)
      → r.options_unmarshal unmarshal discard src x ≡ unmarshal discard src x
