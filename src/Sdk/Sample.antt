-- ===== src/Sdk/Sample.antt =====
-- An implementation of `Sdk` over a ledger, which shows that its laws can hold together.
pub mod Laws
use bluechip_chain_official.Prelude.{
  ℕ, ◌+◌, ◌-◌, ◌≤◌, ◌≡◌, refl, sym, ap, arith, Bool, true, false, ◌||◌, Option, none, some, Bytes,
  bytes, bytes_eq, bytes_eq_refl, bytes_eq→eq, ◌∙◌, List, [], ◌∷◌, ◌++◌, Outcome, ok, err, panic,
  external, leb, if◌then◌else◌, Bool-cases, inl, inr, length,
}
use bluechip_chain_official.MathInt.{ℤ, pos, negsuc, MathInt, MathIntLaws}
use bluechip_chain_official.Fixedmint.Params.Codec.{marshal, unmarshal}
use bluechip_chain_official.Sdk.{Sdk, SdkLaws}
use bluechip_chain_official.Sdk.Ledger.{
  Amounts, amount, denoms, contains, all_zero, contains-append, amount_absent, holdings,
  holdings_zero, holdings_zero_only, covers, covers_all, covers_only,
}

-- Balances count in the denoms that have been minted or sent.
pub record Ledger : Type 0 where
  pub entries : Bytes → Bytes → ℕ
  pub known : List Bytes
  pub total : Bytes → ℕ

abbrev pub balance : Ledger → Bytes → Bytes → ℕ
balance b a d = if contains b.known d then b.entries a d else 0

-- `change` says what an account's amount becomes in a denom.
abbrev pub changed : (Bytes → Bytes → ℕ) → Amounts → (Bytes → ℕ) → Ledger → Ledger
changed change c total b = record { entries = change; known = denoms c ++ b.known; total = total }

abbrev pub can_mint : Bytes → Bool
can_mint m = bytes_eq m (bytes "fixedmint")

abbrev pub is_module : Bytes → Bool
is_module m = bytes_eq m (bytes "fixedmint") || bytes_eq m (bytes "fee_collector")

unfoldable pub minted : Bytes → Amounts → Ledger → Ledger
minted m c b =
    changed (λ a d. balance b a d + (if bytes_eq a m then amount c d else 0)) c
      (λ d. b.total d + amount c d) b

unfoldable pub sent : Bytes → Bytes → Amounts → Ledger → Ledger
sent m r c b =
    changed
      (λ a d.
        balance b a d
        + (if bytes_eq a r then amount c d else 0)
        - (if bytes_eq a m then amount c d else 0))
      c b.total b

unfoldable pub mint : Bytes → Amounts → Ledger → Outcome (Unit {0}) × Ledger
unfolding minted
mint m c b = if can_mint m then (ok tt, minted m c b) else (panic, b)

unfoldable pub send : Bytes → Bytes → Amounts → Ledger → Outcome (Unit {0}) × Ledger
unfolding sent
send m r c b =
    if is_module r
    then (if covers (balance b m) c (denoms c)
        then (ok tt, sent m r c b)
        else (err (external 1), b))
    else (panic, b)

unfoldable pub lookup : List (Bytes × Bytes) → Bytes → Option Bytes
lookup [] k = none
lookup ((j, v) ∷ kv) k = if bytes_eq j k then some v else lookup kv k

module _ (n : MathInt) (laws : MathIntLaws n) where
  unfoldable pub make_coin : Bytes → Option ℤ → Outcome (Bytes × ℕ)
  make_coin d none = panic
  make_coin d (some (pos k)) = if leb 3 (length d) then ok (d, k) else panic
  make_coin d (some (negsuc k)) = panic

  pub make_coin-bad : (d : Bytes) (v : Option ℤ) → leb 3 (length d) ≡ false → make_coin d v ≡ panic
  unfolding make_coin
  make_coin-bad d none h = refl
  make_coin-bad d (some (pos k)) h = rw h
  make_coin-bad d (some (negsuc k)) h = refl

  unfoldable pub ledger : Sdk n
  unfolding make_coin mint send lookup
  ledger = record {
    Coin = Bytes × ℕ;
    Coins = Amounts;
    new_coin = λ d x. make_coin d (laws.value x);
    new_coins = ok;
    coins_is_zero = all_zero;
    Bank = Ledger;
    spendable_coins = λ b a. holdings (balance b a) b.known;
    mint_coins = mint;
    send_coins_from_module_to_module = send;
    Kv = List (Bytes × Bytes);
    get = lookup;
    set = λ kv k v. (k, v) ∷ kv;
    cdc_marshal = marshal n;
    cdc_unmarshal = unmarshal n;
    module_address = λ m. m;
    acc_address_from_bech32 = ok;
  }
