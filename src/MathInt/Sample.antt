-- ===== src/MathInt/Sample.antt =====
-- An implementation of `MathInt` over the integers, which shows that its laws can hold together.
use bluechip_chain_official.Prelude.{
  ℕ, zero, suc, ◌+◌, ◌-◌, ◌*◌, ◌/◌, ◌^◌, ◌<◌, ◌≡◌, refl, ap, arith, Bool, Option, none, some, Bytes,
  [], ◌∷◌, ◌++◌, Outcome, ok, err, panic, text, ltb, ◌==◌, if◌then◌else◌, length, drop, Yields,
}
use bluechip_chain_official.MathInt.{ℤ, pos, negsuc, is_zero_ℤ, is_negative_ℤ, MathInt, MathIntLaws}
use bluechip_chain_official.Wire.Leb.{groups}
use native.Mathlib.Nat.{pow-suc}

abbrev pub Value : Type 0
Value = Option ℤ

unfoldable pub read_groups : Bytes → ℕ
read_groups [] = 0
read_groups (b ∷ bs) = if ltb b 128 then b else b - 128 + 128 * read_groups bs

read_groups-groups : (k v : ℕ) → v < 128 ^ suc k → read_groups (groups k v) ≡ v
unfolding read_groups groups
read_groups-groups zero v h = ground arith
read_groups-groups (suc k) v h = ground (arith, read_groups-groups k (v / 128) (omega arith))

lt_pow : (v : ℕ) → v < 128 ^ suc v
lt_pow zero = omega arith
lt_pow (suc v) = omega (arith, lt_pow v, pow-suc 128 (suc v))

unfoldable pub encode : Value → Bytes
encode none = 0 ∷ groups 0 0
encode (some (pos v)) = 0 ∷ groups v v
encode (some (negsuc v)) = 1 ∷ groups v v

unfoldable pub decode : Value → Bytes → Outcome Value
unfolding read_groups
decode x [] = ok none
decode x (s ∷ src) =
    if s == 0
    then ok (some (pos (read_groups src)))
    else if s == 1
    then ok (some (negsuc (read_groups src)))
    else err (text src)

-- Go's `copy` of the encoding, for a slice that has the room.
unfoldable pub fill : Value → Bytes → Outcome Bytes
unfolding encode
fill x buf = ok (encode x ++ drop (length (encode x)) buf)

unfoldable pub test : (ℤ → Bool) → Value → Outcome Bool
test p none = panic
test p (some z) = ok (p z)

unfoldable pub sample : MathInt
unfolding encode decode fill test
sample = record {
  Int = Value;
  nil = none;
  new_int = some;
  is_zero = test is_zero_ℤ;
  is_negative = test is_negative_ℤ;
  size = λ x. length (encode x);
  marshal_to = fill;
  unmarshal = decode;
}

pub test_lem : (p : ℤ → Bool) (x : Value) (z : ℤ) → x ≡ some z → test p x ≡ ok (p z)
unfolding test
test_lem p x z h = rw h

pub test_nil : (p : ℤ → Bool) (x : Value) → x ≡ none → test p x ≡ panic
unfolding test
test_nil p x h = rw h

pub decode_total : (x : Value) (src : Bytes) → Yields (λ _. Unit) (decode x src)
unfolding decode
decode_total x [] = tt
decode_total x (s ∷ src) = ground arith

pub decode-encode : (x y : Value) (z : ℤ) → y ≡ some z → decode x (encode y) ≡ ok y
unfolding decode encode
decode-encode x none z e = cc
decode-encode x (some (pos v)) z e =
    ap (λ (t : ℕ). ok (some (pos t))) (read_groups-groups v v (lt_pow v))
decode-encode x (some (negsuc v)) z e =
    ap (λ (t : ℕ). ok (some (negsuc t))) (read_groups-groups v v (lt_pow v))

pub encode-zero : encode none ≡ encode (some (pos 0))
unfolding encode
encode-zero = refl

unfoldable pub sample_laws : MathIntLaws sample
unfolding fill sample encode decode test
sample_laws = record {
  value = λ x. x;
  value-nil = refl;
  value-new_int = λ z. refl;
  is_zero_lem = test_lem is_zero_ℤ;
  is_negative_lem = test_lem is_negative_ℤ;
  is_negative_nil = test_nil is_negative_ℤ;
  is_zero_nil = test_nil is_zero_ℤ;
  encoding = encode;
  size-encoding = λ x. refl;
  marshal_to_lem = λ x buf h. refl;
  encoding-nil = encode-zero;
  unmarshal_total = decode_total;
  unmarshal-encoding = decode-encode;
}
