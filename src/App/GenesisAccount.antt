-- ===== src/App/GenesisAccount.antt =====
-- `GenesisAccount.Validate` of app/genesis_account.go. The SDK's coins and accounts are parameters.
use bluechip_chain_official.Prelude.{
  ◌≡◌, ◌↔◌, refl, Bool, true, false, not, Bytes, bytes, bytes_eq, List, [], ◌∷◌, Outcome, ok, err,
  panic, stuck, text, ◌>>◌, fail_if, leb, if◌then◌else◌, inl, inr, ◌⊎◌,
}
use bluechip_chain_official.MathInt.{ℤ, pos, negsuc}

-- `>=` on int64.
abbrev pub ge_ℤ : ℤ → ℤ → Bool
ge_ℤ (pos a) (pos b) = leb b a
ge_ℤ (pos a) (negsuc b) = true
ge_ℤ (negsuc a) (pos b) = false
ge_ℤ (negsuc a) (negsuc b) = leb a b

pub record GenesisAccount (Coins Base : Type 0) : Type 0 where
  pub base_account : Base
  pub original_vesting : Coins
  pub delegated_free : Coins
  pub delegated_vesting : Coins
  pub start_time : ℤ
  pub end_time : ℤ
  pub module_name : Bytes
  pub module_permissions : List Bytes

both_ok : (x y : Outcome (Unit {0})) → ((do x; y) ≡ ok tt) ↔ ((x ≡ ok tt) × (y ≡ ok tt))
both_ok (ok a) y = (λ h. (refl, h), λ h. h.1)
both_ok (err e) y = (λ h. cc, λ h. cc)
both_ok panic y = (λ h. cc, λ h. cc)
both_ok stuck y = (λ h. cc, λ h. cc)

vesting_ok :
    (zero late : Bool) (message : Bytes)
    → ((if not zero then fail_if late (text message) else ok tt) ≡ ok tt)
      ↔ ((zero ≡ true) ⊎ (late ≡ false))
vesting_ok true late message = (λ h. inl refl, λ h. refl)
vesting_ok false true message = (λ h. cc, λ h. elim h [ inl e ↦ cc | inr e ↦ cc ])
vesting_ok false false message = (λ h. inr refl, λ h. refl)

module_ok :
    (name : Bytes) (check : Outcome (Unit {0}))
    → ((if not (bytes_eq name []) then check else ok tt) ≡ ok tt) ↔ ((name ≡ []) ⊎ (check ≡ ok tt))
module_ok [] check = (λ h. inl refl, λ h. refl)
module_ok (c ∷ name) check = (λ h. inr h, λ h. elim h [ inl e ↦ cc | inr e ↦ e ])

module _ {Coins Base : Type 0} (is_zero : Coins → Bool)
    (validate_module : Base → Bytes → List Bytes → Outcome (Unit {0}))
    (validate_base : Base → Outcome (Unit {0})) where
  unfoldable pub check_vesting : GenesisAccount Coins Base → Outcome (Unit {0})
  check_vesting sga =
      if not (is_zero sga.original_vesting)
      then fail_if (ge_ℤ sga.start_time sga.end_time)
          (text (bytes "vesting start-time cannot be before end-time"))
      else ok tt

  unfoldable pub check_module : GenesisAccount Coins Base → Outcome (Unit {0})
  check_module sga =
      if not (bytes_eq sga.module_name [])
      then validate_module sga.base_account sga.module_name sga.module_permissions
      else ok tt

  unfoldable pub validate : GenesisAccount Coins Base → Outcome (Unit {0})
  unfolding check_vesting check_module
  validate sga = do check_vesting sga; check_module sga; validate_base sga.base_account

  -- An account is valid just where it vests nothing or starts before it ends, where it is no module's or
  -- the SDK accepts it as the module's, and where the SDK accepts its base account.
  pub validate_iff :
      (sga : GenesisAccount Coins Base)
      → (validate sga ≡ ok tt) ↔ (
          ((is_zero sga.original_vesting ≡ true) ⊎ (ge_ℤ sga.start_time sga.end_time ≡ false))
          × ((sga.module_name ≡ [])
              ⊎ (validate_module sga.base_account sga.module_name sga.module_permissions ≡ ok tt))
          × (validate_base sga.base_account ≡ ok tt))
  unfolding validate check_vesting check_module
  validate_iff sga =
      let vests = vesting_ok (is_zero sga.original_vesting) (ge_ℤ sga.start_time sga.end_time) _ in
      let mods =
        module_ok sga.module_name
          (validate_module sga.base_account sga.module_name sga.module_permissions) in
      let rest = both_ok (check_module sga) (validate_base sga.base_account) in
      let whole =
        both_ok (check_vesting sga) (do check_module sga; validate_base sga.base_account) in
      (
        λ h. let (v, r) = whole.0 h in let (m, b) = rest.0 r in (vests.0 v, mods.0 m, b),
        λ h. whole.1 (vests.1 h.0, rest.1 (mods.1 h.1, h.2)),
      )
