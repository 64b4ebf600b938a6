-- ===== src/Fixedmint/Keeper/Store.antt =====
-- Parameters in the store: `GetParams` and `SetParams`.
use bluechip_chain_official.Prelude.{
  ◌≡◌, refl, ◌∙◌, ap, none, some, Bytes, Outcome, ok, err, panic, stuck, must, ◌≢◌, Yields,
  Option-cases, inl, inr, length, ◌<◌, ◌^◌,
}
use bluechip_chain_official.MathInt.{ℤ, pos, MathInt, MathIntLaws}
use bluechip_chain_official.Sdk.{Sdk, SdkLaws}
use bluechip_chain_official.Fixedmint.Params.{Params, zero_params}
use bluechip_chain_official.Fixedmint.Params.Codec.{unmarshal}
use bluechip_chain_official.Fixedmint.Params.Codec.Encode.{encode, FitsInt, marshal_lem}
use bluechip_chain_official.Fixedmint.Params.Codec.Decode.{
  unmarshal-encode, unmarshal_returns, merge_zero,
}
use bluechip_chain_official.Fixedmint.Keeper.{Ctx, params_key, get_params, set_params}

must-ne-stuck : {A : Type 0} (m : Outcome A) → Yields (λ _. Unit) m → must m ≢ stuck
must-ne-stuck (ok a) h e = cc
must-ne-stuck (err x) h e = cc
must-ne-stuck panic h e = h
must-ne-stuck stuck h e = h

module _ (n : MathInt) (laws : MathIntLaws n) (sdk : Sdk n) (sdk_laws : SdkLaws n laws sdk) where
  open laws use {value, encoding-nil, value-new_int}
  open sdk_laws use {get-set, cdc_marshal_lem, cdc_unmarshal_lem}
  open n use {Int}

  -- What `SetParams` leaves behind, for parameters that an int can measure.
  pub set_params_lem :
      (p : Params Int) (c : Ctx n sdk)
      → FitsInt n laws p
      → set_params n sdk p c ≡ (ok tt, record c { kv = sdk.set c.kv params_key (encode n laws p) })
  unfolding set_params
  set_params_lem p c h = rw (cdc_marshal_lem p ∙ marshal_lem n laws p h, set_params)

  get_stored :
      (p : Params Int) (c : Ctx n sdk) (src : Bytes)
      → unmarshal n src (zero_params n) ≡ ok p
      → get_params n sdk (record c { kv = sdk.set c.kv params_key src }) ≡ ok p
  unfolding get_params
  get_stored p c src h =
      rw (get-set c.kv params_key src, get_params) (rw (cdc_unmarshal_lem src (zero_params n) ∙ h))

  -- Stored parameters with an amount that is not nil are read back as they are, and the bank is not
  -- touched.
  pub get_params-set_params :
      (p : Params Int) (z : ℤ) (c : Ctx n sdk)
      → value p.mint_amount ≡ some z
      → FitsInt n laws p
      → ((set_params n sdk p c).0 ≡ ok tt)
        × (get_params n sdk (set_params n sdk p c).1 ≡ ok p)
        × ((set_params n sdk p c).1.bank ≡ c.bank)
  get_params-set_params p z c v h =
      let read = unmarshal-encode n laws p (zero_params n) z v h ∙ ap ok (merge_zero n laws p) in
      rw (set_params_lem p c h) (refl, get_stored p c (encode n laws p) read, refl)

  -- A nil amount is read back as 0.
  pub get_params-set_params_nil :
      (p : Params Int) (c : Ctx n sdk)
      → p.mint_amount ≡ n.nil
      → FitsInt n laws p
      → get_params n sdk (set_params n sdk p c).1
        ≡ ok (record p { mint_amount = n.new_int (pos 0) })
  get_params-set_params_nil p c e h =
      let q : Params Int = record p { mint_amount = n.new_int (pos 0) } in
      let same : encode n laws p ≡ encode n laws q = rw (e, encoding-nil) in
      let fits : FitsInt n laws q = rw same at h in
      let read =
        unmarshal-encode n laws q (zero_params n) (pos 0) (value-new_int (pos 0)) fits
        ∙ ap ok (merge_zero n laws q) in
      rw (set_params_lem p c h) (rw same (get_stored q c (encode n laws q) read))

  -- Where nothing was stored the parameters are zero, with minting disabled.
  pub get_params_unset :
      (c : Ctx n sdk) → sdk.get c.kv params_key ≡ none → get_params n sdk c ≡ ok (zero_params n)
  unfolding get_params
  get_params_unset c h = rw (h, get_params)

  -- Reading parameters of a length that an int holds always ends: in parameters, or in a panic.
  pub get_params-ne-stuck :
      (c : Ctx n sdk)
      → ((src : Bytes) → sdk.get c.kv params_key ≡ some src → length src < 2 ^ 63)
      → get_params n sdk c ≢ stuck
  unfolding get_params
  get_params-ne-stuck c fits = elim (Option-cases (sdk.get c.kv params_key)) [
    | inl e ↦ rw (e, get_params) (λ x. cc)
    | inr (src, e) ↦
        rw (e, get_params)
          (rw (cdc_unmarshal_lem src (zero_params n)) (
            must-ne-stuck (unmarshal n src (zero_params n))
              (unmarshal_returns n laws src (zero_params n) (fits src e))))
  ]
