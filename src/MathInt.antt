-- ===== src/MathInt.antt =====
-- `Int` of cosmossdk.io/math, which is not code of the repository: a parameter of the model. `MathInt`
-- is what the code calls, and `MathIntLaws` what it relies on.
pub mod Sample
use bluechip_chain_official.Prelude.{
  ℕ, zero, suc, ◌≤◌, ◌≡◌, Bool, true, false, Option, none, some, Bytes, ◌++◌, Outcome, ok, panic,
  Yields, length, drop,
}

-- `negsuc n` is -(n + 1).
pub data ℤ : Type 0 where
  pos : ℕ → ℤ
  negsuc : ℕ → ℤ

abbrev pub is_zero_ℤ : ℤ → Bool
is_zero_ℤ (pos zero) = true
is_zero_ℤ (pos (suc n)) = false
is_zero_ℤ (negsuc n) = false

abbrev pub is_negative_ℤ : ℤ → Bool
is_negative_ℤ (pos n) = false
is_negative_ℤ (negsuc n) = true

pub record MathInt : Type 1 where
  pub Int : Type 0
  -- The zero value `math.Int{}`, whose pointer is nil.
  pub nil : Int
  pub new_int : ℤ → Int
  pub is_zero : Int → Outcome Bool
  pub is_negative : Int → Outcome Bool
  pub size : Int → ℕ
  -- The slice that is given, and the same slice after the call.
  pub marshal_to : Int → Bytes → Outcome Bytes
  -- The receiver before the call, and after it.
  pub unmarshal : Int → Bytes → Outcome Int

pub record MathIntLaws (n : MathInt) : Type 0 where
  -- The integer that a value stands for; none where the pointer is nil.
  pub value : n.Int → Option ℤ
  pub value-nil : value n.nil ≡ none
  pub value-new_int : (z : ℤ) → value (n.new_int z) ≡ some z
  pub is_zero_lem : (x : n.Int) (z : ℤ) → value x ≡ some z → n.is_zero x ≡ ok (is_zero_ℤ z)
  pub is_negative_lem :
      (x : n.Int) (z : ℤ) → value x ≡ some z → n.is_negative x ≡ ok (is_negative_ℤ z)
  -- A nil pointer is dereferenced.
  pub is_negative_nil : (x : n.Int) → value x ≡ none → n.is_negative x ≡ panic
  pub is_zero_nil : (x : n.Int) → value x ≡ none → n.is_zero x ≡ panic
  pub encoding : n.Int → Bytes
  pub size-encoding : (x : n.Int) → n.size x ≡ length (encoding x)
  -- `MarshalTo` fills the front of a slice that is long enough, and leaves the rest.
  pub marshal_to_lem :
      (x : n.Int) (buf : Bytes)
      → n.size x ≤ length buf
      → n.marshal_to x buf ≡ ok (encoding x ++ drop (n.size x) buf)
  -- A nil integer is written as 0 is.
  pub encoding-nil : encoding n.nil ≡ encoding (n.new_int (pos 0))
  pub unmarshal_total : (x : n.Int) (src : Bytes) → Yields (λ _. Unit) (n.unmarshal x src)
  pub unmarshal-encoding :
      (x y : n.Int) (z : ℤ) → value y ≡ some z → n.unmarshal x (encoding y) ≡ ok y
