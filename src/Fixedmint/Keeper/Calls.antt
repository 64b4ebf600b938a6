-- ===== src/Fixedmint/Keeper/Calls.antt =====
-- One call after another on the state.
use bluechip_chain_official.Prelude.{◌≡◌, refl, ap, Outcome, ok, err, panic, stuck, Error}
use bluechip_chain_official.MathInt.{MathInt}
use bluechip_chain_official.Sdk.{Sdk}
use bluechip_chain_official.Fixedmint.Keeper.{Ctx, Action, ◌>>=◌, go_on, on_bank}

module _ (n : MathInt) (sdk : Sdk n) where
  pub >>=_ok :
      {A B : Type 0} (m : Action n sdk A) (f : A → Action n sdk B) (c c' : Ctx n sdk) (a : A)
      → m c ≡ (ok a, c')
      → ◌>>=◌ n sdk m f c ≡ f a c'
  >>=_ok m f c c' a h = ap (go_on n sdk f) h

  pub >>=_err :
      {A B : Type 0} (m : Action n sdk A) (f : A → Action n sdk B) (c c' : Ctx n sdk) (e : Error)
      → m c ≡ (err e, c')
      → ◌>>=◌ n sdk m f c ≡ (err e, c')
  >>=_err m f c c' e h = ap (go_on n sdk f) h

  pub on_bank_lem :
      (f : sdk.Bank → Outcome (Unit {0}) × sdk.Bank) (c : Ctx n sdk) (r : Outcome (Unit {0}))
      (b : sdk.Bank)
      → f c.bank ≡ (r, b)
      → on_bank n sdk f c ≡ (r, record c { bank = b })
  on_bank_lem f c r b h =
      ap (λ (x : Outcome (Unit {0}) × sdk.Bank). (x.0, record c { bank = x.1 })) h

  -- Inversion of a call that ended well.
  pub go_on-ok :
      {A B : Type 0} (f : A → Action n sdk B) (x : Outcome A × Ctx n sdk) (b : B) (c'' : Ctx n sdk)
      → go_on n sdk f x ≡ (ok b, c'')
      → (a : A) × (c' : Ctx n sdk) × (x ≡ (ok a, c')) × (f a c' ≡ (ok b, c''))
  go_on-ok f (ok a, c) b c'' h = (a, c, refl, h)
  go_on-ok f (err e, c) b c'' h = cc (ap (λ y. y.0) h)
  go_on-ok f (panic, c) b c'' h = cc (ap (λ y. y.0) h)
  go_on-ok f (stuck, c) b c'' h = cc (ap (λ y. y.0) h)
