-- ===== src/Fixedmint/Params.antt =====
-- The module's parameters: x/fixedmint/types/params.go, and the struct of params.pb.go.
pub mod Validation
pub mod Codec
use bluechip_chain_official.Prelude.{
  ℕ, Bool, true, false, Bytes, bytes, bytes_eq, [], Outcome, ok, err, ◌>>=◌, ◌>>◌, empty_denom,
  negative_amount, if◌then◌else◌, fail_if, ◌≡◌,
}
use bluechip_chain_official.MathInt.{ℤ, pos, MathInt}

-- `Int` is the type of amounts, math.Int.
pub record Params (Int : Type 0) : Type 0 where
  pub mint_denom : Bytes
  pub mint_amount : Int
  pub mint_enabled : Bool

abbrev pub default_mint_denom : Bytes
default_mint_denom = bytes "ubluechip"

abbrev pub default_mint_amount : ℤ
default_mint_amount = pos 1_000_000

unfoldable pub validate_mint_denom : Bytes → Outcome (Unit {0})
validate_mint_denom denom = if bytes_eq denom [] then err empty_denom else ok tt

unfoldable pub new_params : {Int : Type 0} → Bytes → Int → Bool → Params Int
new_params denom amount enabled = record {
  mint_denom = denom;
  mint_amount = amount;
  mint_enabled = enabled;
}

module _ (n : MathInt) where
  open n use {Int, new_int, is_negative}

  unfoldable pub default_params : Params Int
  unfolding new_params
  default_params = new_params default_mint_denom (new_int default_mint_amount) true

  -- The zero value `Params{}`.
  unfoldable pub zero_params : Params Int
  zero_params = record { mint_denom = []; mint_amount = n.nil; mint_enabled = false }

  unfoldable pub validate_mint_amount : Int → Outcome (Unit {0})
  validate_mint_amount amount = do negative ← is_negative amount; fail_if negative negative_amount

  unfoldable pub validate : Params Int → Outcome (Unit {0})
  unfolding validate_mint_denom validate_mint_amount
  validate p = do validate_mint_denom p.mint_denom; validate_mint_amount p.mint_amount
