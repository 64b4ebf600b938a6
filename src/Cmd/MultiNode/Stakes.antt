-- ===== src/Cmd/MultiNode/Stakes.antt =====
-- Which validator an amount of the flag is for.
use bluechip_chain_official.Prelude.{
  ℕ, ◌+◌, ◌≡◌, ◌∙◌, refl, arith, Option, none, some, Option-cases, inl, inr, Bytes, List, [], ◌∷◌,
  Outcome, ok, ◌==◌, if◌then◌else◌, err, panic, stuck, ◌>>=◌, Bool-cases, ◌<◌,
}
use bluechip_chain_official.Cmd.MultiNode.{lookup, assign, parse_stakes}

pub lookup-assign :
    {V : Type 0} (i j : ℕ) (v : V) (m : List (ℕ × V))
    → lookup (assign i v m) j ≡ (if i == j then some v else lookup m j)
unfolding lookup assign
lookup-assign i j v [] = refl
lookup-assign i j v ((k, w) ∷ m) = ground (arith, lookup-assign i j v m)

-- The amounts that are numbers, in their order.
unfoldable pub numbers : {Int : Type 0} → (Bytes → Option Int) → List Bytes → List Int
numbers new_int_from_string [] = []
numbers new_int_from_string (a ∷ amounts) = elim (new_int_from_string a) [
  | none ↦ numbers new_int_from_string amounts
  | some x ↦ x ∷ numbers new_int_from_string amounts
]

-- A coin for each number, or what the first one ends in that cannot be made a coin.
unfoldable pub coins_of :
    {Int Coin : Type 0} → (Int → Outcome Coin) → List Int → Outcome (List Coin)
coins_of new_coin [] = ok []
coins_of new_coin (x ∷ xs) = do coin ← new_coin x; coins ← coins_of new_coin xs; ok (coin ∷ coins)

-- The map with the coins as the entries from `top` on.
unfoldable pub assign_from : {Coin : Type 0} → ℕ → List Coin → List (ℕ × Coin) → List (ℕ × Coin)
assign_from top [] stakes = stakes
assign_from top (coin ∷ coins) stakes = assign_from (top + 1) coins (assign top coin stakes)

-- The entry `i` of coins that stand from `top` on.
unfoldable pub entry_from : {Coin : Type 0} → ℕ → List Coin → ℕ → Option Coin
entry_from top [] i = none
entry_from top (coin ∷ coins) i =
    let others = entry_from (top + 1) coins i in if top == i then some coin else others

-- The first, and the second where there is none.
unfoldable pub or_else : {A : Type 0} → Option A → Option A → Option A
or_else none b = b
or_else (some a) b = some a

entry_before :
    {Coin : Type 0} (top i : ℕ) (coins : List Coin) → i < top → entry_from top coins i ≡ none
unfolding entry_from
entry_before top i [] h = refl
entry_before top i (coin ∷ coins) h = ground (arith, entry_before (top + 1) i coins (omega arith))

lookup-assign_from :
    {Coin : Type 0} (top i : ℕ) (coins : List Coin) (stakes : List (ℕ × Coin))
    → lookup (assign_from top coins stakes) i ≡ (or_else (entry_from top coins i) (lookup stakes i))
unfolding assign_from entry_from or_else
lookup-assign_from top i [] stakes = refl
lookup-assign_from top i (coin ∷ coins) stakes = elim (Bool-cases (top == i)) [
  | inl here ↦
      let before : entry_from (top + 1) coins i ≡ none =
        entry_before (top + 1) i coins (ground arith) in
      lookup-assign_from (top + 1) i coins (assign top coin stakes)
      ∙ rw (before, lookup-assign top i coin stakes, here) refl
  | inr other ↦
      lookup-assign_from (top + 1) i coins (assign top coin stakes)
      ∙ rw (lookup-assign top i coin stakes, other) refl
]

module _ {Int Coin : Type 0} (new_int_from_string : Bytes → Option Int)
    (new_coin : Int → Outcome Coin) where
  with_coin :
      (r : Outcome Coin) (rest : Outcome (List Coin)) (top : ℕ) (stakes : List (ℕ × Coin))
      (next : List (ℕ × Coin) → Outcome (List (ℕ × Coin)))
      → ((m : List (ℕ × Coin)) → next m ≡ (rest >>= λ coins. ok (assign_from (top + 1) coins m)))
      → (r >>= λ coin. next (assign top coin stakes)) ≡ (
          (r >>= λ coin. rest >>= λ coins. ok (coin ∷ coins)) >>= λ coins.
          ok (assign_from top coins stakes))
  unfolding assign_from
  with_coin (ok coin) (ok coins) top stakes next h = h (assign top coin stakes)
  with_coin (ok coin) (err e) top stakes next h = h (assign top coin stakes)
  with_coin (ok coin) panic top stakes next h = h (assign top coin stakes)
  with_coin (ok coin) stuck top stakes next h = h (assign top coin stakes)
  with_coin (err e) rest top stakes next h = refl
  with_coin panic rest top stakes next h = refl
  with_coin stuck rest top stakes next h = refl

  parse_stakes-assign_from :
      (amounts : List Bytes) (top : ℕ) (stakes : List (ℕ × Coin))
      → parse_stakes new_int_from_string new_coin amounts top stakes ≡ (
          coins_of new_coin (numbers new_int_from_string amounts) >>= λ coins.
          ok (assign_from top coins stakes))
  unfolding parse_stakes numbers coins_of assign_from
  parse_stakes-assign_from [] top stakes = refl
  parse_stakes-assign_from (a ∷ amounts) top stakes = elim (Option-cases (new_int_from_string a)) [
    | inl bad ↦ rw (bad, parse_stakes, numbers) (parse_stakes-assign_from amounts top stakes)
    | inr (x, good) ↦
        rw (good, parse_stakes, numbers)
          (with_coin (new_coin x) (coins_of new_coin (numbers new_int_from_string amounts)) top
            stakes (parse_stakes new_int_from_string new_coin amounts (top + 1))
            (parse_stakes-assign_from amounts (top + 1)))
  ]

  pub lookup-parse_stakes :
      (amounts : List Bytes) (top : ℕ) (stakes : List (ℕ × Coin))
      → (m : List Coin → List (ℕ × Coin)) × (parse_stakes new_int_from_string new_coin amounts top
            stakes
          ≡ (coins_of new_coin (numbers new_int_from_string amounts) >>= λ coins. ok (m coins)))
        × ((coins : List Coin) (i : ℕ)
            → lookup (m coins) i ≡ (or_else (entry_from top coins i) (lookup stakes i)))
  lookup-parse_stakes amounts top stakes = (
    λ coins. assign_from top coins stakes,
    parse_stakes-assign_from amounts top stakes,
    λ coins i. lookup-assign_from top i coins stakes,
  )
