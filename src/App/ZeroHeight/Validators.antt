-- ===== src/App/ZeroHeight/Validators.antt =====
-- What the loop over the validators makes of each of them.
use bluechip_chain_official.Prelude.{
  ◌≡◌, ◌≢◌, refl, sym, ◌∙◌, ap, arith, Bool, true, false, Bool-cases, inl, inr, not, ◌&&◌, ◌||◌,
  List, [], ◌∷◌, Bytes, bytes_eq, bytes_eq→eq, bytes_eq_refl, bytes_ne, ok, ltb, if◌then◌else◌,
  length,
}
use bluechip_chain_official.App.ZeroHeight.{
  Validator, Keepers, each, mem_bytes, reset_validator_fields, reset_validator,
}

-- What the loop relies on of the staking keeper: a validator that is set is found under the address of
-- its operator, and no other one changes.
pub record ValidatorLaws {S Coins : Type 0} (k : Keepers S Coins) : Type 0 where
  pub address : Bytes → Bytes
  pub found_under :
      (a : Bytes) (v : Validator) (s : S) → k.get_validator a s ≡ ok v → address v.operator ≡ a
  pub set_validator_lem :
      (v : Validator) (s : S)
      → (s' : S) × (k.set_validator v s ≡ ok s')
        × (k.get_validator (address v.operator) s' ≡ ok v)
        × ((a : Bytes) → a ≢ address v.operator → k.get_validator a s' ≡ k.get_validator a s)

-- No unbonding height, and jailed where there is a list that does not allow it.
unfoldable pub expected_fields : Bool → Bool → Validator → Validator
expected_fields apply allowed v = record v {
  unbonding_height = 0;
  jailed = (apply && not allowed) || v.jailed;
}

reset-expected :
    (apply allowed : Bool) (v : Validator)
    → reset_validator_fields apply allowed v ≡ expected_fields apply allowed v
unfolding reset_validator_fields expected_fields
reset-expected true true v = refl
reset-expected true false v = refl
reset-expected false b v = refl

expected_twice :
    (apply allowed : Bool) (v : Validator)
    → expected_fields apply allowed (expected_fields apply allowed v)
      ≡ expected_fields apply allowed v
unfolding expected_fields
expected_twice true true v = refl
expected_twice true false v = refl
expected_twice false b v = refl

expected-operator :
    (apply allowed : Bool) (v : Validator) → (expected_fields apply allowed v).operator ≡ v.operator
unfolding expected_fields
expected-operator apply allowed v = refl

module _ {S Coins : Type 0} (k : Keepers S Coins) (laws : ValidatorLaws k)
    (allowed : List Bytes) where
  -- The validator at an address, as it is to be.
  abbrev pub as_new : Bytes → Validator → Validator
  as_new a v =
      expected_fields (ltb 0 (length allowed)) (mem_bytes (k.val_address_string a) allowed) v

  -- Every one of the addresses has a validator.
  abbrev pub AllFound : List Bytes → S → Type 0
  AllFound l s = (a : Bytes) → mem_bytes a l ≡ true → (v : Validator) × (k.get_validator a s ≡ ok v)

  -- One round of the loop.
  one_reset :
      (a : Bytes) (v : Validator) (s : S)
      → k.get_validator a s ≡ ok v
      → (s' : S) × (reset_validator k allowed a s ≡ ok s')
        × (k.get_validator a s' ≡ ok (as_new a v))
        × ((b : Bytes) → b ≢ a → k.get_validator b s' ≡ k.get_validator b s)
  unfolding reset_validator
  one_reset a v s found =
      let (s', sets, stored, others) = laws.set_validator_lem (as_new a v) s in
      let at_a : laws.address (as_new a v).operator ≡ a =
        ap laws.address (expected-operator (ltb 0 (length allowed)) _ v)
        ∙ laws.found_under a v s found in
      (
        s',
        rw found (
            rw
              (reset-expected (ltb 0 (length allowed)) (mem_bytes (k.val_address_string a) allowed)
                v)
              (rw sets)),
        rw at_a at stored,
        λ b ne. others b λ e. ne (e ∙ at_a),
      )

  if_same : {A : Type 0} (b : Bool) (x y : A) → x ≡ y → (if b then x else y) ≡ y
  if_same true x y e = e
  if_same false x y e = refl

  -- Where the address is the one that was just reset, a later reset changes nothing.
  settled :
      (b : Bool) (a : Bytes) (v : Validator)
      → (if b then as_new a (as_new a v) else as_new a v) ≡ as_new a v
  settled b a v =
      if_same b (as_new a (as_new a v)) (as_new a v) (expected_twice (ltb 0 (length allowed)) _ v)

  same_address :
      (a b : Bytes) (v w : Validator) (s s' : S)
      → a ≡ b
      → k.get_validator b s ≡ ok w
      → k.get_validator b s' ≡ ok (as_new b w)
      → k.get_validator a s ≡ ok v
      → k.get_validator a s' ≡ ok (as_new a v)
  same_address a b v w s s' p found now f =
      let here : ok w ≡ ok v = sym found ∙ ap (λ c. k.get_validator c s) (sym p) ∙ f in
      let same : w ≡ v = cc here in rw p (now ∙ ap (λ x. ok (as_new b x)) same)

  -- The loop over addresses that all have a validator ends well. It leaves every validator of its list
  -- with no unbonding height, and jailed as well where there is a list of allowed addresses and it is
  -- not in that, and every other validator as it was.
  pub reset_validators-get :
      (l : List Bytes) (s : S)
      → AllFound l s
      → (s' : S) × (each (reset_validator k allowed) l s ≡ ok s')
        × ((a : Bytes) (v : Validator)
            → k.get_validator a s ≡ ok v
            → k.get_validator a s' ≡ ok (if mem_bytes a l then as_new a v else v))
  reset_validators-get [] s all = (s, refl, λ a v f. f)
  reset_validators-get (b ∷ l) s all =
      let (w, found) = all b (rw (bytes_eq_refl b)) in
      let (s1, step, now, others) = one_reset b w s found in
      let still : AllFound l s1 = λ a h. elim (Bool-cases (bytes_eq a b)) [
        | inl e ↦ (as_new b w, ap (λ c. k.get_validator c s1) (bytes_eq→eq a b e) ∙ now)
        | inr e ↦ let (v, f) = all a (ground arith) in (v, others a (bytes_ne a b e) ∙ f)
      ] in
      let (s', loop, final) = reset_validators-get l s1 still in
      (
        s',
        rw step loop,
        λ a v f. elim (Bool-cases (bytes_eq a b)) [
          | inl e ↦
              let new = same_address a b v w s s1 (bytes_eq→eq a b e) found now f in
              rw e (final a (as_new a v) new ∙ ap ok (settled (mem_bytes a l) a v))
          | inr e ↦ rw e (final a v (others a (bytes_ne a b e) ∙ f))
        ],
      )
