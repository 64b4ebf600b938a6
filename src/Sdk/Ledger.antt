-- ===== src/Sdk/Ledger.antt =====
-- A ledger for the sample: balances, with the denoms that they may stand in.
use bluechip_chain_official.Prelude.{
  ℕ, ◌+◌, ◌≤◌, ◌≡◌, refl, arith, Bool, true, false, ◌&&◌, ◌||◌, Bytes, bytes_eq, bytes_eq→eq,
  bytes_eq_refl, List, [], ◌∷◌, ◌++◌, leb, ◌==◌, if◌then◌else◌, Bool-cases, inl, inr,
}

abbrev pub Amounts : Type 0
Amounts = List (Bytes × ℕ)

unfoldable pub amount : Amounts → Bytes → ℕ
amount [] d = 0
amount ((e, k) ∷ cs) d = (if bytes_eq e d then k else 0) + amount cs d

unfoldable pub denoms : Amounts → List Bytes
denoms [] = []
denoms ((e, k) ∷ cs) = e ∷ denoms cs

unfoldable pub contains : List Bytes → Bytes → Bool
contains [] d = false
contains (e ∷ es) d = bytes_eq e d || contains es d

unfoldable pub all_zero : Amounts → Bool
all_zero [] = true
all_zero ((e, k) ∷ cs) = k == 0 && all_zero cs

pub contains-append :
    (xs ys : List Bytes) (d : Bytes) → contains (xs ++ ys) d ≡ (contains xs d || contains ys d)
unfolding contains
contains-append [] ys d = refl
contains-append (x ∷ xs) ys d = elim (Bool-cases (bytes_eq x d)) [
  | inl h ↦ rw h
  | inr h ↦ rw h (contains-append xs ys d)
]

pub amount_absent : (cs : Amounts) (d : Bytes) → contains (denoms cs) d ≡ false → amount cs d ≡ 0
unfolding amount denoms contains
amount_absent [] d h = refl
amount_absent ((e, k) ∷ cs) d h = elim (Bool-cases (bytes_eq e d)) [
  | inl same ↦ cc
  | inr other ↦ rw other (ground (arith, amount_absent cs d (rw other at h)))
]

-- What an account holds in some denoms.
unfoldable pub holdings : (Bytes → ℕ) → List Bytes → Amounts
holdings f [] = []
holdings f (d ∷ ds) = (d, f d) ∷ holdings f ds

or-true : (b : Bool) → (b || true) ≡ true
or-true true = refl
or-true false = refl

pub holdings_zero :
    (f : Bytes → ℕ) (ds : List Bytes)
    → ((d : Bytes) → contains ds d ≡ true → f d ≡ 0)
    → all_zero (holdings f ds) ≡ true
unfolding all_zero holdings contains
holdings_zero f [] h = refl
holdings_zero f (d ∷ ds) h =
    let first : f d ≡ 0 = h d (rw (bytes_eq_refl d) refl) in
    rw first (holdings_zero f ds λ e m. h e (rw (m, or-true (bytes_eq d e)) refl))

pub holdings_zero_only :
    (f : Bytes → ℕ) (ds : List Bytes) (d : Bytes)
    → all_zero (holdings f ds) ≡ true
    → contains ds d ≡ true
    → f d ≡ 0
unfolding all_zero holdings contains
holdings_zero_only f [] d h m = cc
holdings_zero_only f (e ∷ es) d h m = elim (Bool-cases (bytes_eq e d)) [
  | inl same ↦ rw (← bytes_eq→eq e d same) (ground arith)
  | inr other ↦ holdings_zero_only f es d (ground arith) (rw other at m)
]

-- Whether an account has what is taken from it.
unfoldable pub covers : (Bytes → ℕ) → Amounts → List Bytes → Bool
covers f cs [] = true
covers f cs (d ∷ ds) = leb (amount cs d) (f d) && covers f cs ds

pub covers_all :
    (f : Bytes → ℕ) (cs : Amounts) (ds : List Bytes)
    → ((d : Bytes) → amount cs d ≤ f d)
    → covers f cs ds ≡ true
unfolding covers
covers_all f cs [] h = refl
covers_all f cs (d ∷ ds) h = ground (arith, h d, covers_all f cs ds h)

pub covers_only :
    (f : Bytes → ℕ) (cs : Amounts) (ds : List Bytes) (d : Bytes)
    → covers f cs ds ≡ true
    → contains ds d ≡ true
    → amount cs d ≤ f d
unfolding covers contains
covers_only f cs [] d h m = cc
covers_only f cs (e ∷ es) d h m = elim (Bool-cases (bytes_eq e d)) [
  | inl same ↦ rw (← bytes_eq→eq e d same) (ground arith)
  | inr other ↦ covers_only f cs es d (ground arith) (rw other at m)
]
