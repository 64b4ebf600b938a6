-- ===== src/Fixedmint/Module/Genesis.antt =====
-- Genesis: what is imported is what is exported.
use bluechip_chain_official.Prelude.{◌≡◌, ok, some, none, Bytes, Outcome}
use bluechip_chain_official.MathInt.{ℤ, MathInt, MathIntLaws}
use bluechip_chain_official.Sdk.{Sdk, SdkLaws}
use bluechip_chain_official.Fixedmint.Params.{Params, zero_params}
use bluechip_chain_official.Fixedmint.Params.Codec.Encode.{FitsInt}
use bluechip_chain_official.Fixedmint.Keeper.{Ctx, get_params, set_params, params_key}
use bluechip_chain_official.Fixedmint.Keeper.Store.{
  set_params_lem, get_params-set_params, get_params_unset,
}
use bluechip_chain_official.Fixedmint.Module.{
  GenesisState, init_genesis, export_genesis, app_init_genesis, app_export_genesis,
}

module _ (n : MathInt) (laws : MathIntLaws n) (sdk : Sdk n) (sdk_laws : SdkLaws n laws sdk) where
  init_genesis_stores :
      (gs : GenesisState n.Int) (c : Ctx n sdk)
      → FitsInt n laws gs.params
      → init_genesis n sdk gs c ≡ set_params n sdk gs.params c
  unfolding init_genesis
  init_genesis_stores gs c h = rw (set_params_lem n laws sdk sdk_laws gs.params c h)

  export_stored :
      (p : Params n.Int) (c : Ctx n sdk)
      → get_params n sdk c ≡ ok p
      → export_genesis n sdk c ≡ ok (record { params = p })
  unfolding export_genesis
  export_stored p c g = rw g

  -- A genesis state whose amount is not nil is imported without a panic, and it is what is exported
  -- next; the bank is not touched.
  pub export_genesis-init_genesis :
      (gs : GenesisState n.Int) (z : ℤ) (c : Ctx n sdk)
      → laws.value gs.params.mint_amount ≡ some z
      → FitsInt n laws gs.params
      → ((init_genesis n sdk gs c).0 ≡ ok tt)
        × (export_genesis n sdk (init_genesis n sdk gs c).1 ≡ ok gs)
        × ((init_genesis n sdk gs c).1.bank ≡ c.bank)
  export_genesis-init_genesis gs z c v h =
      let (done, read, same) = get_params-set_params n laws sdk sdk_laws gs.params z c v h in
      rw (init_genesis_stores gs c h)
        (done, export_stored gs.params (set_params n sdk gs.params c).1 read, same)

  -- Before anything was stored, the export is of the zero value, and not of the defaults.
  pub export_genesis_unset :
      (c : Ctx n sdk)
      → sdk.get c.kv params_key ≡ none
      → export_genesis n sdk c ≡ ok (record { params = zero_params n })
  export_genesis_unset c h =
      export_stored (zero_params n) c (get_params_unset n laws sdk sdk_laws c h)

  -- Through the JSON codec: where it reads back what it wrote, a state that was exported and imported
  -- elsewhere has the same parameters there.
  pub app_init_genesis-app_export_genesis :
      (to_json : GenesisState n.Int → Outcome Bytes)
      (of_json : Bytes → Outcome (GenesisState n.Int)) (p : Params n.Int) (z : ℤ) (bz : Bytes)
      (c c' : Ctx n sdk)
      → to_json (record { params = p }) ≡ ok bz
      → of_json bz ≡ ok (record { params = p })
      → get_params n sdk c ≡ ok p
      → laws.value p.mint_amount ≡ some z
      → FitsInt n laws p
      → (app_export_genesis n sdk to_json c ≡ ok bz)
        × (get_params n sdk (app_init_genesis n sdk of_json bz c').1 ≡ ok p)
  unfolding app_export_genesis app_init_genesis
  app_init_genesis-app_export_genesis to_json of_json p z bz c c' w r g v h =
      let gs : GenesisState n.Int = record { params = p } in
      let (done, read, same) = get_params-set_params n laws sdk sdk_laws p z c' v h in
      (rw (export_stored p c g) (rw w), rw r read)
