-- ===== src/Cmd/InPlace/Init/Fund.antt =====
-- The accounts that a testnet funds.
use bluechip_chain_official.Prelude.{
  ℕ, ◌+◌, ◌*◌, ◌≤◌, ◌<◌, ◌≡◌, refl, sym, ◌∙◌, ap, subst, arith, Bool, true, false, Bool-cases, inl,
  inr, List, [], ◌∷◌, All, length, Bytes, bytes_eq, bytes_eq→eq, bytes_eq_refl, ok, if◌then◌else◌,
  ◌^◌,
}
use bluechip_chain_official.Sdk.{int_limit}
use bluechip_chain_official.App.ZeroHeight.{each}
use bluechip_chain_official.Cmd.InPlace.Init.{Testnet, mint_module, fund, fund_accounts, funding}

-- What the funding relies on of the SDK: coins of one denom, and the bank, whose additions panic beyond the
-- bounds of an integer. The module mint has the permission to mint, and its account is a blocked one, as
-- app/app_config.go says.
pub record FundLaws {S Address Key Any LegacyDec Coin Coins : Type 0}
    (t : Testnet S Address Key Any LegacyDec Coin Coins) : Type 0 where
  pub valid_denom : Bytes → Bool
  pub amount_of : Coins → Bytes → ℕ
  pub coins_lem :
      (d : Bytes) (n : ℕ)
      → valid_denom d ≡ true
      → 0 < n
      → n < 2 ^ 63
      → (coin : Coin) × (coins : Coins) × (t.new_int64_coin d n ≡ ok coin)
        × (t.new_coins (coin ∷ []) ≡ ok coins)
        × ((e : Bytes) → amount_of coins e ≡ (if bytes_eq d e then n else 0))
  -- The balance of an address, and the supply, in a denom.
  pub balance : S → Bytes → Bytes → ℕ
  pub supply : S → Bytes → ℕ
  pub mint_address : Bytes
  pub blocked : Bytes → Bool
  pub mint_blocked : blocked mint_address ≡ true
  pub mint_succeeds :
      (c : Coins) (s : S)
      → ((d : Bytes) → 0 < amount_of c d → supply s d + amount_of c d < int_limit)
      → ((d : Bytes) → 0 < amount_of c d → balance s mint_address d + amount_of c d < int_limit)
      → (s' : S) × (t.mint_coins mint_module c s ≡ ok s')
  pub mint_supply :
      (c : Coins) (s s' : S) (d : Bytes)
      → t.mint_coins mint_module c s ≡ ok s'
      → supply s' d ≡ supply s d + amount_of c d
  pub mint_balance :
      (c : Coins) (s s' : S) (a d : Bytes)
      → t.mint_coins mint_module c s ≡ ok s'
      → balance s' a d ≡ balance s a d + (if bytes_eq a mint_address then amount_of c d else 0)
  pub send_succeeds :
      (account : Bytes) (c : Coins) (s : S)
      → blocked account ≡ false
      → ((d : Bytes) → amount_of c d ≤ balance s mint_address d)
      → ((d : Bytes) → 0 < amount_of c d → balance s account d + amount_of c d < int_limit)
      → (s' : S) × (t.send_coins_from_module_to_account mint_module account c s ≡ ok s')
  pub send_supply :
      (account : Bytes) (c : Coins) (s s' : S) (d : Bytes)
      → t.send_coins_from_module_to_account mint_module account c s ≡ ok s'
      → supply s' d ≡ supply s d
  pub send_balance :
      (account : Bytes) (c : Coins) (s s' : S) (a d : Bytes)
      → t.send_coins_from_module_to_account mint_module account c s ≡ ok s'
      → balance s' a d + (if bytes_eq a mint_address then amount_of c d else 0)
        ≡ balance s a d + (if bytes_eq a account then amount_of c d else 0)

-- How often an address is in a list.
unfoldable pub count : Bytes → List Bytes → ℕ
count a [] = 0
count a (b ∷ bs) = (if bytes_eq a b then 1 else 0) + count a bs

-- What an account has after a mint to `m` and a send from `m` to `c`, each by the flag of the account.
after_both :
    (m c : Bool) (n0 n1 n2 f : ℕ)
    → n1 ≡ n0 + (if m then f else 0)
    → n2 + (if m then f else 0) ≡ n1 + (if c then f else 0)
    → n2 ≡ n0 + (if c then f else 0)
after_both true c n0 n1 n2 f h k = omega arith
after_both false c n0 n1 n2 f h k = omega arith

at_most : (c : Bool) (f : ℕ) → (if c then f else 0) ≤ f
at_most true f = omega arith
at_most false f = omega arith

module _ {S Address Key Any LegacyDec Coin Coins : Type 0}
    (t : Testnet S Address Key Any LegacyDec Coin Coins) (laws : FundLaws t) (denom : Bytes) where
  open laws use {balance, supply, amount_of, blocked, mint_address}

  -- In the denom `total` more fits into the supply and into every balance.
  abbrev pub HasRoom : ℕ → S → Type 0
  HasRoom total s =
      (supply s denom + total < int_limit) × ((a : Bytes) → balance s a denom + total < int_limit)

  module _ (coins : Coins)
      (only : (e : Bytes) → amount_of coins e ≡ (if bytes_eq denom e then funding else 0)) where
    in_denom : amount_of coins denom ≡ funding
    in_denom = only denom ∙ rw (bytes_eq_refl denom) refl

    at_denom :
        (P : Bytes → ℕ → Type 0)
        → P denom funding
        → (d : Bytes) → 0 < amount_of coins d
        → P d (amount_of coins d)
    at_denom P h d some' = elim (Bool-cases (bytes_eq denom d)) [
      | inl same ↦
          let all : amount_of coins d ≡ funding = only d ∙ rw same refl in
          subst (λ n. P d n) (sym all) (subst (λ e. P e funding) (bytes_eq→eq denom d same) h)
      | inr other ↦
          let none' : amount_of coins d ≡ 0 = only d ∙ rw other refl in absurd (omega arith)
    ]

    not_mint : (account : Bytes) → blocked account ≡ false → bytes_eq account mint_address ≡ false
    not_mint account free = elim (Bool-cases (bytes_eq account mint_address)) [
      | inl same ↦
          let clash = ap blocked (sym (bytes_eq→eq account mint_address same)) in
          absurd (cc (sym laws.mint_blocked ∙ clash ∙ free))
      | inr other ↦ other
    ]

    fund_lem :
        (account : Bytes) (s : S) (more : ℕ)
        → blocked account ≡ false
        → HasRoom (funding + more) s
        → (s' : S) × (fund t coins account s ≡ ok s')
          × ((a : Bytes)
              → balance s' a denom
                ≡ balance s a denom + (if bytes_eq a account then funding else 0))
          × HasRoom more s'
    unfolding fund
    fund_lem account s more free (in_supply, in_balances) =
        let (s1, mints) =
          laws.mint_succeeds coins s (at_denom (λ d n. supply s d + n < int_limit) (omega arith)) (
            at_denom (λ d n. balance s mint_address d + n < int_limit)
              (omega (arith, in_balances mint_address))) in
        let covered : (d : Bytes) → amount_of coins d ≤ balance s1 mint_address d = λ d. omega (
          arith,
          rw (bytes_eq_refl mint_address) at (laws.mint_balance coins s s1 mint_address d mints),
        ) in
        let unpaid =
          rw (not_mint account free) at (laws.mint_balance coins s s1 account denom mints) in
        let (s2, sends) = laws.send_succeeds account coins s1 free covered (
          at_denom (λ d n. balance s1 account d + n < int_limit)
            (omega (arith, unpaid, in_balances account))) in
        let paid : (a : Bytes)
            → balance s2 a denom ≡ balance s a denom + (if bytes_eq a account then funding else 0) =
          λ a.
            after_both (bytes_eq a mint_address) (bytes_eq a account) (balance s a denom)
              (balance s1 a denom) (balance s2 a denom) (amount_of coins denom)
              (laws.mint_balance coins s s1 a denom mints)
              (laws.send_balance account coins s1 s2 a denom sends)
            ∙ ap (λ n. balance s a denom + (if bytes_eq a account then n else 0)) in_denom in
        (
          s2,
          rw mints (rw sends refl),
          paid,
          (
            omega (
              arith,
              in_denom,
              laws.mint_supply coins s s1 denom mints,
              laws.send_supply account coins s1 s2 denom sends,
            ),
            λ a. omega (arith, paid a, at_most (bytes_eq a account) funding, in_balances a),
          ),
        )

    each-fund :
        (accounts : List Bytes) (s : S)
        → All (λ a. blocked a ≡ false) accounts
        → HasRoom (funding * length accounts) s
        → (s' : S) × (each (fund t coins) accounts s ≡ ok s')
          × ((a : Bytes) → balance s' a denom ≡ balance s a denom + funding * count a accounts)
    unfolding count
    each-fund [] s free room = (s, refl, λ a. omega arith)
    each-fund (b ∷ bs) s (free, frees) (in_supply, in_balances) =
        let (s1, step, one, room) =
          fund_lem b s (funding * length bs) free
            (omega arith, λ a. omega (arith, in_balances a)) in
        let (s2, loop, others) = each-fund bs s1 frees room in
        (
          s2,
          rw step loop,
          λ a.
              added (bytes_eq a b) (balance s a denom) (balance s1 a denom) (balance s2 a denom)
                (count a bs) (others a) (one a),
        )
      where
        added :
            (e : Bool) (n0 n1 n2 c : ℕ)
            → n2 ≡ n1 + funding * c
            → n1 ≡ n0 + (if e then funding else 0)
            → n2 ≡ n0 + funding * ((if e then 1 else 0) + c)
        added true n0 n1 n2 c h1 h2 = omega arith
        added false n0 n1 n2 c h1 h2 = omega arith

  -- Where the bond denom is one of the SDK's, the bank blocks no account of the list, and the supply and the
  -- balances have room for the whole of it, the funding comes back, and each address has the amount once more
  -- in the bond denom for each time that it is in the list.
  pub fund_accounts_lem :
      (accounts : List Bytes) (s : S)
      → t.bond_denom s ≡ ok denom
      → laws.valid_denom denom ≡ true
      → All (λ a. blocked a ≡ false) accounts
      → HasRoom (funding * length accounts) s
      → (s' : S) × (fund_accounts t accounts s ≡ ok s')
        × ((a : Bytes) → balance s' a denom ≡ balance s a denom + funding * count a accounts)
  unfolding fund_accounts
  fund_accounts_lem accounts s bond valid free room =
      let (coin, coins, one, made, only) =
        laws.coins_lem denom funding valid (omega arith) (omega arith) in
      let (s', loop, funded) = each-fund coins only accounts s free room in
      (s', rw bond (rw one (rw made loop)), funded)
