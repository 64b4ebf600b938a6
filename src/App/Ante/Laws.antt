-- ===== src/App/Ante/Laws.antt =====
-- What an ante handler that was made rests on.
use bluechip_chain_official.Prelude.{
  ◌↔◌, ◌≡◌, refl, none, some, Option, Bytes, List, Outcome, ok, >>=-eq-ok,
}
use bluechip_chain_official.App.Ante.{
  Decorator, HandlerOptions, required, decorators, new_ante_handler,
}

required-ok :
    {Keeper : Type 0} (message : Bytes) (o : Option Keeper) (k : Keeper)
    → required message o ≡ ok k
    → o ≡ some k
required-ok message none k h = cc
required-ok message (some j) k h = cc

module _ {Keeper : Type 0} (limit : Keeper → Keeper)
    (get_gas_register : Option Keeper → Outcome Keeper) (options : HandlerOptions Keeper) where
  -- All that a handler needs.
  abbrev pub Complete : Type 0
  Complete =
      ((account : Keeper) × (options.account_keeper ≡ some account))
      × ((bank : Keeper) × (options.bank_keeper ≡ some bank))
      × ((sign : Keeper) × (options.sign_mode_handler ≡ some sign))
      × ((wasm : Keeper) × (options.wasm_config ≡ some wasm))
      × ((counter : Keeper) × (options.tx_counter_store_service ≡ some counter))
      × ((circuit : Keeper) × (options.circuit_keeper ≡ some circuit))
      × ((register : Keeper) × (get_gas_register options.wasm_keeper ≡ ok register))

  new_ante_handler-ok :
      (ds : List (Decorator Keeper))
      → new_ante_handler limit get_gas_register options ≡ ok ds
      → Complete
  unfolding new_ante_handler
  new_ante_handler-ok ds h =
      let (account, a, h1) = >>=-eq-ok (required _ options.account_keeper) _ h in
      let (bank, b, h2) = >>=-eq-ok (required _ options.bank_keeper) _ h1 in
      let (sign, s, h3) = >>=-eq-ok (required _ options.sign_mode_handler) _ h2 in
      let (wasm, w, h4) = >>=-eq-ok (required _ options.wasm_config) _ h3 in
      let (counter, t, h5) = >>=-eq-ok (required _ options.tx_counter_store_service) _ h4 in
      let (circuit, c, h6) = >>=-eq-ok (required _ options.circuit_keeper) _ h5 in
      let (register, r, h7) = >>=-eq-ok (get_gas_register options.wasm_keeper) _ h6 in
      (
        (account, required-ok _ _ account a),
        (bank, required-ok _ _ bank b),
        (sign, required-ok _ _ sign s),
        (wasm, required-ok _ _ wasm w),
        (counter, required-ok _ _ counter t),
        (circuit, required-ok _ _ circuit c),
        (register, r),
      )

  new_ante_handler_complete :
      Complete
      → (ds : List (Decorator Keeper)) × (new_ante_handler limit get_gas_register options ≡ ok ds)
  unfolding new_ante_handler
  new_ante_handler_complete
        ((account, a), (bank, b), (sign, s), (wasm, w), (counter, t), (circuit, c), (register, r)) =
      (
        decorators limit get_gas_register options account bank sign wasm counter circuit register,
        rw (a, b, s, w, t, c, r) refl,
      )

  -- A handler is made just with an account keeper, a bank keeper, a sign mode handler, a wasm config, a
  -- counter store and a circuit keeper, and with a wasm keeper that has a gas register.
  pub new_ante_handler_iff :
      ((ds : List (Decorator Keeper)) × (new_ante_handler limit get_gas_register options ≡ ok ds))
      ↔ Complete
  new_ante_handler_iff = (λ h. new_ante_handler-ok h.0 h.1, new_ante_handler_complete)
