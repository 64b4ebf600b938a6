-- ===== src/Fixedmint/Params/Validation.antt =====
-- `Params.Validate`, on every branch.
use bluechip_chain_official.Prelude.{
  ℕ, ◌≡◌, refl, ◌≢◌, Option, none, some, Bytes, [], ◌∷◌, Outcome, ok, err, panic, empty_denom,
  negative_amount,
}
use bluechip_chain_official.MathInt.{ℤ, pos, negsuc, MathInt, MathIntLaws}
use bluechip_chain_official.Fixedmint.Params.{Params, validate, default_params}

cons-ne-nil : (x : ℕ) (xs : Bytes) → x ∷ xs ≢ []
cons-ne-nil x xs e = cc

module _ (n : MathInt) (laws : MathIntLaws n) where
  open laws use {value, is_negative_lem, is_negative_nil, value-new_int}

  -- What `Validate` ends in, by the denom and the value of the amount.
  abbrev pub Verdict : Bytes → Option ℤ → Outcome (Unit {0})
  Verdict [] v = err empty_denom
  Verdict (x ∷ xs) none = panic
  Verdict (x ∷ xs) (some (pos k)) = ok tt
  Verdict (x ∷ xs) (some (negsuc k)) = err negative_amount

  verdict_amount :
      (x : ℕ) (xs : Bytes) (p : Params n.Int) (v : Option ℤ)
      → p.mint_denom ≡ x ∷ xs
      → value p.mint_amount ≡ v
      → validate n p ≡ Verdict (x ∷ xs) v
  unfolding validate
  verdict_amount x xs p none d e = rw d (rw (is_negative_nil p.mint_amount e))
  verdict_amount x xs p (some (pos k)) d e = rw d (rw (is_negative_lem p.mint_amount (pos k) e))
  verdict_amount x xs p (some (negsuc k)) d e =
      rw d (rw (is_negative_lem p.mint_amount (negsuc k) e))

  verdict_denom :
      (s : Bytes) (p : Params n.Int)
      → p.mint_denom ≡ s
      → validate n p ≡ Verdict s (value p.mint_amount)
  unfolding validate
  verdict_denom [] p d = rw d
  verdict_denom (x ∷ xs) p d = verdict_amount x xs p (value p.mint_amount) d refl

  pub validate-verdict :
      (p : Params n.Int) → validate n p ≡ Verdict p.mint_denom (value p.mint_amount)
  validate-verdict p = verdict_denom p.mint_denom p refl

  verdict_ok :
      (s : Bytes) (v : Option ℤ) → Verdict s v ≡ ok tt → (s ≢ []) × (k : ℕ) × (v ≡ some (pos k))
  verdict_ok [] v h = cc
  verdict_ok (x ∷ xs) none h = cc
  verdict_ok (x ∷ xs) (some (pos k)) h = (cons-ne-nil x xs, k, refl)
  verdict_ok (x ∷ xs) (some (negsuc k)) h = cc

  -- Accepted parameters have a denom that is not empty, and a natural number for amount.
  pub validate-ok :
      (p : Params n.Int)
      → validate n p ≡ ok tt
      → (p.mint_denom ≢ []) × (k : ℕ) × (value p.mint_amount ≡ some (pos k))
  validate-ok p h = verdict_ok p.mint_denom (value p.mint_amount) (rw (validate-verdict p) at h)

  pub ok-validate :
      (p : Params n.Int) (k : ℕ)
      → p.mint_denom ≢ []
      → value p.mint_amount ≡ some (pos k)
      → validate n p ≡ ok tt
  ok-validate p k d v = rw (validate-verdict p) (rw v (accepted p.mint_denom d))
    where
      accepted : (s : Bytes) → s ≢ [] → Verdict s (some (pos k)) ≡ ok tt
      accepted [] h = absurd (h refl)
      accepted (x ∷ xs) h = refl

  -- The default parameters are accepted.
  pub default_params-validate : validate n (default_params n) ≡ ok tt
  unfolding default_params
  default_params-validate = verdict_amount _ _ (default_params n) _ refl (value-new_int _)
