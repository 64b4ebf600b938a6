-- ===== src/Sdk/Sample/Laws.antt =====
-- The laws of `Sdk` for the sample.
use bluechip_chain_official.Prelude.{
  ℕ, ◌+◌, ◌-◌, ◌≤◌, ◌≡◌, refl, sym, ap, arith, true, Bytes, bytes_eq, bytes_eq_refl, bytes_eq→eq,
  ◌∙◌, [], ◌∷◌, Outcome, ok, leb, if◌then◌else◌, Bool-cases, inl, inr, length,
}
use bluechip_chain_official.MathInt.{MathInt, MathIntLaws}
use bluechip_chain_official.Sdk.{SdkLaws}
use bluechip_chain_official.Sdk.Ledger.{
  Amounts, amount, denoms, contains, all_zero, contains-append, amount_absent, holdings,
  holdings_zero, holdings_zero_only, covers, covers_all, covers_only,
}
use bluechip_chain_official.Sdk.Sample.{
  Ledger, balance, changed, can_mint, is_module, minted, sent, mint, send, lookup, make_coin,
  make_coin-bad, ledger,
}

-- In a denom that is not known neither the account nor the coins have anything.
changed_lem :
    (change : Bytes → Bytes → ℕ) (c : Amounts) (total : Bytes → ℕ) (b : Ledger) (a d : Bytes)
    → (amount c d ≡ 0 → balance b a d ≡ 0 → change a d ≡ 0)
    → balance (changed change c total b) a d ≡ change a d
changed_lem change c total b a d h = elim (Bool-cases (contains (denoms c) d)) [
  | inl old ↦ rw (contains-append (denoms c) b.known d, old)
  | inr new ↦ elim (Bool-cases (contains b.known d)) [
    | inl old ↦ rw (contains-append (denoms c) b.known d, new, old)
    | inr absent ↦
        rw (contains-append (denoms c) b.known d, new, absent)
          (sym (h (amount_absent c d new) (rw absent)))
  ]
]

pub mint-ok :
    (m : Bytes) (c : Amounts) (b b' : Ledger) → mint m c b ≡ (ok tt, b') → minted m c b ≡ b'
unfolding mint
mint-ok m c b b' h = elim (Bool-cases (can_mint m)) [
  | inl can ↦ ap (λ (x : Outcome (Unit {0}) × Ledger). x.1) (rw can at h)
  | inr cannot ↦ cc (ap (λ (x : Outcome (Unit {0}) × Ledger). x.0) (rw cannot at h))
]

pub send-ok :
    (m r : Bytes) (c : Amounts) (b b' : Ledger)
    → send m r c b ≡ (ok tt, b')
    → (covers (balance b m) c (denoms c) ≡ true) × (sent m r c b ≡ b')
unfolding send
send-ok m r c b b' h = elim (Bool-cases (is_module r)) [
  | inl known ↦ elim (Bool-cases (covers (balance b m) c (denoms c))) [
    | inl enough ↦ (enough, ap (λ (x : Outcome (Unit {0}) × Ledger). x.1) (rw (known, enough) at h))
    | inr short ↦ cc (ap (λ (x : Outcome (Unit {0}) × Ledger). x.0) (rw (known, short) at h))
  ]
  | inr stranger ↦ cc (ap (λ (x : Outcome (Unit {0}) × Ledger). x.0) (rw stranger at h))
]

pub minted_balance :
    (m : Bytes) (c : Amounts) (b : Ledger) (a d : Bytes)
    → balance (minted m c b) a d ≡ balance b a d + (if bytes_eq a m then amount c d else 0)
unfolding minted
minted_balance m c b a d =
    changed_lem (λ a d. balance b a d + (if bytes_eq a m then amount c d else 0)) c
      (λ d. b.total d + amount c d) b a d λ none' old. rw (old, none') (ground arith)

pub sent_balance :
    (m r : Bytes) (c : Amounts) (b : Ledger) (a d : Bytes)
    → balance (sent m r c b) a d
      ≡ balance b a d
        + (if bytes_eq a r then amount c d else 0)
        - (if bytes_eq a m then amount c d else 0)
unfolding sent
sent_balance m r c b a d =
    changed_lem
      (λ a d.
        balance b a d
        + (if bytes_eq a r then amount c d else 0)
        - (if bytes_eq a m then amount c d else 0))
      c b.total b a d λ none' old. rw (old, none') (ground arith)

pub minted_total :
    (m : Bytes) (c : Amounts) (b : Ledger) (d : Bytes)
    → (minted m c b).total d ≡ b.total d + amount c d
unfolding minted
minted_total m c b d = refl

pub sent_total :
    (m r : Bytes) (c : Amounts) (b : Ledger) (d : Bytes) → (sent m r c b).total d ≡ b.total d
unfolding sent
sent_total m r c b d = refl

-- What is taken from an account is there.
covered :
    (m : Bytes) (c : Amounts) (b : Ledger) (d : Bytes)
    → covers (balance b m) c (denoms c) ≡ true
    → amount c d ≤ balance b m d
covered m c b d h = elim (Bool-cases (contains (denoms c) d)) [
  | inl there ↦ covers_only (balance b m) c (denoms c) d h there
  | inr absent ↦ omega (arith, amount_absent c d absent)
]

pub taken :
    (m : Bytes) (c : Amounts) (b : Ledger) (a d : Bytes)
    → covers (balance b m) c (denoms c) ≡ true
    → (if bytes_eq a m then amount c d else 0) ≤ balance b a d
taken m c b a d h = elim (Bool-cases (bytes_eq a m)) [
  | inl same ↦ rw (same, bytes_eq→eq a m same) (covered m c b d h)
  | inr other ↦ rw other (omega arith)
]

module _ (n : MathInt) (laws : MathIntLaws n) where
  pub spendable-zero :
      (b : Ledger) (m d : Bytes)
      → all_zero (holdings (balance b m) b.known) ≡ true
      → balance b m d ≡ 0
  spendable-zero b m d h = elim (Bool-cases (contains b.known d)) [
    | inl known ↦ holdings_zero_only (balance b m) b.known d h known
    | inr absent ↦ rw absent
  ]

  unfoldable pub ledger_laws : SdkLaws n laws (ledger n laws)
  unfolding ledger make_coin send mint lookup amount
  ledger_laws = record {
    valid_denom = λ d. leb 3 (length d);
    coin = λ d k. (d, k);
    new_coin_lem = λ d x k h v. rw (v, h);
    new_coin_bad_denom = λ d x h. make_coin-bad n laws d (laws.value x) h;
    new_coin_negative = λ d x k v. rw v;
    single = λ d k. (d, k) ∷ [];
    new_coins_lem = λ d k. refl;
    amount_of = amount;
    amount_of-single = λ d e k. omega arith;
    balance = balance;
    supply = λ b. b.total;
    spendable_zero = λ b m h. holdings_zero (balance b m) b.known λ d k. h d;
    spendable_zero_only = spendable-zero;
    mint_balance = λ m c b b' a d h.
        ap (λ (x : Ledger). balance x a d) (sym (mint-ok m c b b' h)) ∙ minted_balance m c b a d;
    mint_supply = λ m c b b' d h.
        ap (λ (x : Ledger). x.total d) (sym (mint-ok m c b b' h)) ∙ minted_total m c b d;
    send_balance = λ m r c b b' a d h.
        let (enough, e) = send-ok m r c b b' h in
        omega (
          arith,
          taken m c b a d enough,
          sent_balance m r c b a d,
          ap (λ (x : Ledger). balance x a d) e,
        );
    send_supply = λ m r c b b' d h.
        ap (λ (x : Ledger). x.total d) (sym (send-ok m r c b b' h).1) ∙ sent_total m r c b d;
    can_mint = can_mint;
    is_module = is_module;
    mint_succeeds = λ m c b h fits fits_here. (minted m c b, rw h);
    send_succeeds =
        λ m r c b h k fits. (sent m r c b, rw (h, covers_all (balance b m) c (denoms c) k));
    module_address_ne = λ m r h. h;
    get-set = λ kv k v. rw (bytes_eq_refl k);
    cdc_marshal_lem = λ p. refl;
    cdc_unmarshal_lem = λ src p. refl;
  }
