-- ===== src/Fixedmint/Keeper/Authority.antt =====
-- Who may change the parameters, and what is checked of them: `UpdateParams`, `ValidateBasic`, and the
-- query.
use bluechip_chain_official.Prelude.{
  ◌≡◌, refl, ◌↔◌, ◌≢◌, some, Bytes, bytes_eq, bytes_eq→eq, bytes_eq_refl, bytes_ne, Outcome, ok,
  err, panic, stuck, invalid_signer, Bool-cases, inl, inr,
}
use bluechip_chain_official.MathInt.{ℤ, MathInt, MathIntLaws}
use bluechip_chain_official.Sdk.{Sdk, SdkLaws}
use bluechip_chain_official.Fixedmint.Params.{validate}
use bluechip_chain_official.Fixedmint.Params.Codec.Encode.{FitsInt}
use bluechip_chain_official.Fixedmint.Keeper.Store.{get_params-set_params}
use bluechip_chain_official.Fixedmint.Keeper.{
  Ctx, MsgUpdateParams, after_address, get_params, set_params, update_params, validate_basic,
}

module _ (n : MathInt) (sdk : Sdk n) (authority : Bytes) (req : MsgUpdateParams n.Int)
    (c : Ctx n sdk) where
  -- Anybody but the authority gets an error that names both, and nothing is stored.
  pub update_params_refuses :
      authority ≢ req.authority
      → update_params n sdk authority req c ≡ (err (invalid_signer authority req.authority), c)
  unfolding update_params
  update_params_refuses ne = elim (Bool-cases (bytes_eq authority req.authority)) [
    | inl same ↦ absurd (ne (bytes_eq→eq authority req.authority same))
    | inr other ↦ rw other
  ]

  update_params_stores :
      authority ≡ req.authority
      → update_params n sdk authority req c ≡ set_params n sdk req.params c
  unfolding update_params
  update_params_stores e = rw (← e, bytes_eq_refl authority)

  -- A message that goes through is the authority's.
  pub update_params_authority :
      (update_params n sdk authority req c).0 ≡ ok tt → authority ≡ req.authority
  update_params_authority h = elim (Bool-cases (bytes_eq authority req.authority)) [
    | inl same ↦ bytes_eq→eq authority req.authority same
    | inr other ↦ let refused = update_params_refuses (bytes_ne authority req.authority other) in cc
  ]

  -- A message goes through just where it is the authority's, and its parameters could be stored.
  pub update_params_iff :
      ((update_params n sdk authority req c).0 ≡ ok tt)
      ↔ ((authority ≡ req.authority) × ((set_params n sdk req.params c).0 ≡ ok tt))
  update_params_iff = (
    λ h. let e = update_params_authority h in (e, rw (update_params_stores e) at h),
    λ h. rw (update_params_stores h.0) h.1,
  )

after_address-ok :
    (r : Outcome Bytes) (k : Outcome (Unit {0}))
    → after_address r k ≡ ok tt
    → ((a : Bytes) × (r ≡ ok a)) × (k ≡ ok tt)
after_address-ok (ok a) k h = ((a, refl), h)
after_address-ok (err e) k h = cc
after_address-ok panic k h = cc
after_address-ok stuck k h = cc

module _ (n : MathInt) (sdk : Sdk n) (m : MsgUpdateParams n.Int) where
  -- `ValidateBasic` accepts just the messages with an address for authority and valid parameters.
  pub validate_basic_iff : (validate_basic n sdk m ≡ ok tt) ↔ (
      ((a : Bytes) × (sdk.acc_address_from_bech32 m.authority ≡ ok a))
      × (validate n m.params ≡ ok tt))
  unfolding validate_basic
  validate_basic_iff = (
    after_address-ok (sdk.acc_address_from_bech32 m.authority) (validate n m.params),
    λ h. rw h.0.1 h.1,
  )

module _ (n : MathInt) (laws : MathIntLaws n) (sdk : Sdk n) (sdk_laws : SdkLaws n laws sdk) where
  -- From the authority, parameters whose amount is not nil, and whose length an int holds, are stored as they
  -- were sent, whether `ValidateBasic` accepts them or not: the handler does not validate them.
  pub update_params-get_params :
      (authority : Bytes) (req : MsgUpdateParams n.Int) (z : ℤ) (c : Ctx n sdk)
      → authority ≡ req.authority
      → laws.value req.params.mint_amount ≡ some z
      → FitsInt n laws req.params
      → ((update_params n sdk authority req c).0 ≡ ok tt)
        × (get_params n sdk (update_params n sdk authority req c).1 ≡ ok req.params)
        × ((update_params n sdk authority req c).1.bank ≡ c.bank)
  update_params-get_params authority req z c e v h =
      rw (update_params_stores n sdk authority req c e)
        (get_params-set_params n laws sdk sdk_laws req.params z c v h)
