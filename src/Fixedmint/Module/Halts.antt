-- ===== src/Fixedmint/Module/Halts.antt =====
-- Parameters that are accepted, and with which no block can begin.
use bluechip_chain_official.Prelude.{
  ℕ, suc, ◌≡◌, ◌≢◌, true, refl, false, some, Bytes, [], ok, panic, inl, ap,
}
use bluechip_chain_official.MathInt.{pos, MathInt, MathIntLaws}
use bluechip_chain_official.Sdk.{Sdk, SdkLaws}
use bluechip_chain_official.Fixedmint.Params.Validation.{ok-validate}
use bluechip_chain_official.Fixedmint.Params.Codec.Encode.{FitsInt}
use bluechip_chain_official.Fixedmint.Keeper.{Ctx, MsgUpdateParams, update_params, validate_basic}
use bluechip_chain_official.Fixedmint.Keeper.Authority.{
  validate_basic_iff, update_params-get_params,
}
use bluechip_chain_official.Fixedmint.Keeper.Reward.{reward_panics}
use bluechip_chain_official.Fixedmint.Module.{begin_block}

module _ (n : MathInt) (laws : MathIntLaws n) (sdk : Sdk n) (sdk_laws : SdkLaws n laws sdk) where
  open sdk_laws use {valid_denom}

  -- A message of the authority with a denom that is not empty but is none of the SDK's, minting
  -- enabled and a positive amount, passes `ValidateBasic` and the handler; the next block panics.
  pub begin_block-update_params :
      (req : MsgUpdateParams n.Int) (k : ℕ) (a : Bytes) (c : Ctx n sdk)
      → sdk.acc_address_from_bech32 req.authority ≡ ok a
      → req.params.mint_denom ≢ []
      → valid_denom req.params.mint_denom ≡ false
      → req.params.mint_enabled ≡ true
      → laws.value req.params.mint_amount ≡ some (pos (suc k))
      → FitsInt n laws req.params
      → (validate_basic n sdk req ≡ ok tt)
        × ((update_params n sdk req.authority req c).0 ≡ ok tt)
        × ((begin_block n sdk (update_params n sdk req.authority req c).1).0 ≡ panic)
  unfolding begin_block
  begin_block-update_params req k a c addr ne bad on v fits =
      let valid = ok-validate n laws req.params (suc k) ne v in
      let (done, read, same) =
        update_params-get_params n laws sdk sdk_laws req.authority req (pos (suc k)) c refl v
          fits in
      let halt =
        reward_panics n laws sdk sdk_laws req.params (pos (suc k))
          (update_params n sdk req.authority req c).1 read on v (λ e. cc) (inl bad) in
      ((validate_basic_iff n sdk req).1 ((a, addr), valid), done, ap (λ x. x.0) halt)
