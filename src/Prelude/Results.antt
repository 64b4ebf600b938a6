-- ===== src/Prelude/Results.antt =====
-- What a Go call can end in: a value, an error value, or a panic.
use Prim.Native.Nat.{ℕ}
use mathlib.Core.Path.{◌≡◌, refl, subst}
use mathlib.Core.Bool.{Bool, true, false}
use mathlib.Core.List.{List}
use bluechip_chain_official.Prelude.Tests.{if◌then◌else◌}

-- The errors that the code makes itself, and `external` for those that it passes on.
pub data Error : Type 0 where
  int_overflow invalid_length unexpected_eof unexpected_end_of_group end_group : Error
  illegal_tag : ℕ → ℕ → Error
  wrong_wire_type : ℕ → ℕ → Error
  illegal_wire_type : ℕ → Error
  empty_denom negative_amount invalid_authority invalid_request : Error
  invalid_signer : List ℕ → List ℕ → Error
  text : List ℕ → Error
  external : ℕ → Error
  -- `fmt.Errorf` with an error behind the text.
  wrap : List ℕ → Error → Error

-- `stuck` is no Go outcome: a loop of the model ran out of its rounds.
pub data Outcome {ℓ} (A : Type ℓ) : Type ℓ where
  ok : A → Outcome A
  err : Error → Outcome A
  panic stuck : Outcome A

infixl 5 ◌>>=◌ ◌>>◌
abbrev pub ◌>>=◌ {ℓ κ} : {A : Type ℓ} {B : Type κ} → Outcome A → (A → Outcome B) → Outcome B
panic >>= f = panic
stuck >>= f = stuck
err e >>= f = err e
ok a >>= f = f a

abbrev pub fail_if : Bool → Error → Outcome (Unit {0})
fail_if true e = err e
fail_if false e = ok tt

abbrev pub ◌>>◌ {ℓ} : {B : Type ℓ} → Outcome (Unit {0}) → Outcome B → Outcome B
m >> next = m >>= λ _. next

-- `Must…`: an error becomes a panic.
abbrev pub must {ℓ} : {A : Type ℓ} → Outcome A → Outcome A
must (ok a) = ok a
must (err e) = panic
must panic = panic
must stuck = stuck

pub must-ok {ℓ} : {A : Type ℓ} (m : Outcome A) {a : A} → must m ≡ ok a → m ≡ ok a
must-ok (ok b) h = h
must-ok (err e) h = cc
must-ok panic h = cc
must-ok stuck h = cc

pub >>=-eq-ok {ℓ κ} :
    {A : Type ℓ} {B : Type κ} (call : Outcome A) (f : A → Outcome B) {b : B}
    → (call >>= f) ≡ ok b
    → (a : A) × (call ≡ ok a) × (f a ≡ ok b)
>>=-eq-ok panic f h = cc
>>=-eq-ok stuck f h = cc
>>=-eq-ok (err e) f h = cc
>>=-eq-ok (ok a) f h = (a, refl, h)

-- The call comes back with a value of which `P` holds, or with an error.
abbrev pub Yields {ℓ} : {A : Type ℓ} → (A → Type 0) → Outcome A → Type 0
Yields P (ok a) = P a
Yields P (err e) = Unit
Yields P panic = ⊥
Yields P stuck = ⊥

pub Yields->>= {ℓ κ} :
    {A : Type ℓ} {B : Type κ} (P : A → Type 0) (Q : B → Type 0) (m : Outcome A) (f : A → Outcome B)
    → Yields P m
    → ((a : A) → P a → Yields Q (f a))
    → Yields Q (m >>= f)
Yields->>= P Q (ok a) f h k = k a h
Yields->>= P Q (err e) f h k = tt
Yields->>= P Q panic f h k = h
Yields->>= P Q stuck f h k = h

pub Yields-fail_if {ℓ} :
    {B : Type ℓ} (Q : B → Type 0) (b : Bool) (e : Error) (k : Outcome B)
    → (b ≡ false → Yields Q k)
    → Yields Q (fail_if b e >> k)
Yields-fail_if Q true e k h = tt
Yields-fail_if Q false e k h = h refl

pub Yields-if {ℓ} :
    {B : Type ℓ} (Q : B → Type 0) (b : Bool) (x y : Outcome B)
    → (b ≡ true → Yields Q x)
    → (b ≡ false → Yields Q y)
    → Yields Q (if b then x else y)
Yields-if Q true x y h k = h refl
Yields-if Q false x y h k = k refl

pub Yields-weaken {ℓ} :
    {A : Type ℓ} (P Q : A → Type 0) (m : Outcome A)
    → ((a : A) → P a → Q a)
    → Yields P m
    → Yields Q m
Yields-weaken P Q (ok a) k h = k a h
Yields-weaken P Q (err e) k h = tt
Yields-weaken P Q panic k h = h
Yields-weaken P Q stuck k h = h

pub Yields-ok {ℓ} :
    {A : Type ℓ} (P : A → Type 0) (m : Outcome A) {a : A} → Yields P m → m ≡ ok a → P a
Yields-ok P (ok b) h e = subst (λ r. Yields P r) e h
Yields-ok P (err x) h e = cc
Yields-ok P panic h e = cc
Yields-ok P stuck h e = cc
