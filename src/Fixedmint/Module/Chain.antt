-- ===== src/Fixedmint/Module/Chain.antt =====
-- The module in a running chain: its blocks, its message, and whatever else the chain does.
use bluechip_chain_official.Prelude.{
  Bool-cases, inl, inr, ◌≡◌, ◌≢◌, refl, sym, ◌∙◌, ap, Bool, true, false, not, Bytes, List, [], ◌∷◌,
  ok, All, Outcome,
}
use bluechip_chain_official.MathInt.{MathInt, MathIntLaws}
use bluechip_chain_official.Sdk.{Sdk, SdkLaws}
use bluechip_chain_official.Fixedmint.Keeper.{
  Ctx, MsgUpdateParams, module_name, get_params, update_params, module_account_invariant,
}
use bluechip_chain_official.Fixedmint.Keeper.Frame.{
  get_params_kv, update_params_bank, reward_keeps, Same, SameAccount,
}
use bluechip_chain_official.Fixedmint.Keeper.Authority.{update_params_refuses}
use bluechip_chain_official.Fixedmint.Module.{begin_block}

-- What a chain does, as this module sees it.
pub data Event (Int : Type 0) : Type 0 where
  block other : Event Int
  message : MsgUpdateParams Int → Event Int

-- Whether the event is a message of somebody else than the authority, or none at all.
abbrev pub Unprivileged : {Int : Type 0} → Bytes → Event Int → Type 0
Unprivileged authority block = Unit
Unprivileged authority other = Unit
Unprivileged authority (message req) = authority ≢ req.authority

not-false : (b : Bool) → not b ≡ false → b ≡ true
not-false true h = refl
not-false false h = cc

both : (b c : Bool) → (b ≡ false → c ≡ false) → (c ≡ false → b ≡ false) → b ≡ c
both true true f g = refl
both true false f g = g refl
both false true f g = sym (f refl)
both false false f g = refl

module _ (n : MathInt) (laws : MathIntLaws n) (sdk : Sdk n) (sdk_laws : SdkLaws n laws sdk)
    (authority : Bytes) where
  open sdk_laws use {balance, spendable_zero, spendable_zero_only}
  open sdk use {module_address}

  -- A block is one that ends well, since the chain stops at any other. A message's state is taken
  -- whether it succeeds or not. What other modules do leaves this module's store and account alone.
  pub data Step : Event n.Int → Ctx n sdk → Ctx n sdk → Type 0 where
    in_block : {c c' : Ctx n sdk} → begin_block n sdk c ≡ (ok tt, c') → Step block c c'
    in_message :
        {c : Ctx n sdk} (req : MsgUpdateParams n.Int)
        → Step (message req) c (update_params n sdk authority req c).1
    elsewhere : {c c' : Ctx n sdk} → Same n laws sdk sdk_laws c c' → Step other c c'

  pub data Reach : List (Event n.Int) → Ctx n sdk → Ctx n sdk → Type 0 where
    start : {c : Ctx n sdk} → Reach [] c c
    next :
        {e : Event n.Int} {es : List (Event n.Int)} {c c' c'' : Ctx n sdk}
        → Step e c c'
        → Reach es c' c''
        → Reach (e ∷ es) c c''

  Step-keeps :
      {e : Event n.Int} {c c' : Ctx n sdk}
      → Step e c c'
      → SameAccount n laws sdk sdk_laws c.bank c'.bank
  unfolding begin_block
  Step-keeps (in_block {c} {c'} h) = (reward_keeps n laws sdk sdk_laws c c' h).account
  Step-keeps (in_message {c} req) = λ d.
      ap (λ (b : sdk.Bank). balance b (module_address module_name) d)
        (update_params_bank n sdk authority req c)
  Step-keeps (elsewhere same) = same.account

  -- A run leaves the module's account as it was.
  pub account-Reach :
      {es : List (Event n.Int)} {c c' : Ctx n sdk}
      → Reach es c c'
      → SameAccount n laws sdk sdk_laws c.bank c'.bank
  account-Reach start d = refl
  account-Reach (next s r) d = account-Reach r d ∙ Step-keeps s d

  invariant_holds :
      (c c' : Ctx n sdk)
      → SameAccount n laws sdk sdk_laws c.bank c'.bank
      → module_account_invariant n sdk c ≡ false
      → module_account_invariant n sdk c' ≡ false
  unfolding module_account_invariant
  invariant_holds c c' same h =
      let empty = spendable_zero_only c.bank module_name in
      let zero = spendable_zero c'.bank module_name (λ d. same d ∙ empty d (not-false _ h)) in
      rw zero

  -- In a run in which other modules leave this module's account and store alone, the invariant is broken
  -- at the end just where it was at the start: the module never breaks it, and never mends it.
  pub module_account_invariant-Reach :
      (es : List (Event n.Int)) (c c' : Ctx n sdk)
      → Reach es c c'
      → module_account_invariant n sdk c' ≡ module_account_invariant n sdk c
  module_account_invariant-Reach es c c' r =
      let same = account-Reach r in
      both (module_account_invariant n sdk c') (module_account_invariant n sdk c)
        (invariant_holds c' c (λ d. sym (same d))) (invariant_holds c c' same)

  Step-kv :
      {e : Event n.Int} {c c' : Ctx n sdk} → Step e c c' → Unprivileged authority e → c'.kv ≡ c.kv
  unfolding begin_block
  Step-kv (in_block {c} {c'} h) u = (reward_keeps n laws sdk sdk_laws c c' h).kv
  Step-kv (in_message {c} req) u =
      ap (λ (x : Outcome (Unit {0}) × Ctx n sdk). x.1.kv)
        (update_params_refuses n sdk authority req c u)
  Step-kv (elsewhere same) u = same.kv

  reach_kv :
      {es : List (Event n.Int)} {c c' : Ctx n sdk}
      → Reach es c c'
      → All (Unprivileged authority) es
      → c'.kv ≡ c.kv
  reach_kv start u = refl
  reach_kv (next s r) (u, us) = reach_kv r us ∙ Step-kv s u

  pub get_params-Reach :
      (es : List (Event n.Int)) (c c' : Ctx n sdk)
      → Reach es c c'
      → All (Unprivileged authority) es
      → get_params n sdk c' ≡ get_params n sdk c
  get_params-Reach es c c' r u = get_params_kv n sdk c' c (reach_kv r u)

  -- Once the module's account holds a coin of any denom, the invariant is broken after every run in which
  -- other modules leave the account and the module's store alone.
  pub residue-Reach :
      (es : List (Event n.Int)) (c c' : Ctx n sdk) (d : Bytes)
      → Reach es c c'
      → balance c.bank (module_address module_name) d ≢ 0
      → module_account_invariant n sdk c' ≡ true
  unfolding module_account_invariant
  residue-Reach es c c' d r h = elim (Bool-cases (module_account_invariant n sdk c')) [
    | inl broken ↦ broken
    | inr fine ↦
        absurd (
          h (
            sym (account-Reach r d) ∙ spendable_zero_only c'.bank module_name d (not-false _ fine)))
  ]
