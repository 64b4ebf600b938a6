-- ===== src/Cmd/InPlace/Init/Sample.antt =====
-- A state of which the laws of the funding hold: the balances and the supply of the bank. A coin is a denom
-- with an amount, and what the laws do not speak of changes nothing.
use bluechip_chain_official.Prelude.{
  ℕ, ◌+◌, ◌-◌, ◌≤◌, ◌≡◌, refl, sym, subst, arith, Bool, true, false, none, [], ◌∷◌, Bytes, bytes,
  bytes_eq, bytes_eq→eq, ok, panic, if◌then◌else◌, Outcome, leb, leb→le, le→leb, Bool-cases, inl,
  inr, ap, ◌∙◌, bytes_eq_refl,
}
use bluechip_chain_official.Cmd.InPlace.Init.{Testnet}
use bluechip_chain_official.Cmd.InPlace.Init.Fund.{FundLaws}

pub record World : Type 0 where
  pub total : Bytes → ℕ
  pub bank : Bytes → Bytes → ℕ

abbrev pub Funds : Type 0
Funds = Bytes × ℕ

abbrev pub amount : Funds → Bytes → ℕ
amount (d, n) e = if bytes_eq d e then n else 0

abbrev pub mint : Bytes
mint = bytes "mint"

abbrev pub minted : Bytes → Funds → World → World
minted m c s = record {
  total = λ d. s.total d + amount c d;
  bank = λ a d. s.bank a d + (if bytes_eq a m then amount c d else 0);
}

abbrev pub sent : Bytes → Bytes → Funds → World → World
sent m r c s = record s {
  bank = λ a d.
      s.bank a d
      - (if bytes_eq a m then amount c d else 0)
      + (if bytes_eq a r then amount c d else 0);
}

abbrev pub send : Bytes → Bytes → Funds → World → Outcome World
send m r (d, n) s = if leb n (s.bank m d) then ok (sent m r (d, n) s) else panic

abbrev pub testnet : Testnet World Bytes Bytes Bytes Bytes Funds Funds
testnet = record {
  new_any_with_value = λ key. ok key;
  legacy_must_new_dec_from_str = λ s. ok s;
  string_to_bytes = λ s. ok s;
  address_bytes = λ a. a;
  cons_address_string = λ a. a;
  validators_key = 0x21 ∷ [];
  validator_queue_key = 0x43 ∷ [];
  prefix_end_bytes = λ p. none;
  iterator = λ p end s. [];
  delete = λ k s. s;
  validators_power_store_iterator = λ s. ok [];
  last_validators_iterator = λ s. ok [];
  set_validator = λ v s. ok (s, none);
  set_validator_by_cons_addr = λ v s. ok s;
  set_validator_by_power_index = λ v s. ok (s, none);
  set_last_validator_power = λ a n s. ok (s, none);
  after_validator_created = λ a s. ok s;
  set_validator_historical_rewards = λ a n m s. ok (s, none);
  set_validator_current_rewards = λ a n s. ok (s, none);
  set_initial_accumulated_commission = λ a s. ok (s, none);
  set_no_outstanding_rewards = λ a s. ok (s, none);
  last_block_height = 7;
  set_validator_signing_info = λ a i s. ok (s, none);
  bond_denom = λ s. ok (bytes "stake");
  new_int64_coin = λ d n. ok (d, n);
  new_coins = λ coins. elim coins [ [] ↦ ok ([], 0) | ◌∷◌ c cs ↦ ok c ];
  mint_coins = λ m c s. ok (minted m c s);
  send_coins_from_module_to_account = send;
}

-- A send that comes back was covered, in every denom.
pub send-sent :
    (m r : Bytes) (c : Funds) (s s' : World)
    → send m r c s ≡ ok s'
    → ((d : Bytes) → amount c d ≤ s.bank m d) × (sent m r c s ≡ s')
send-sent m r (e, n) s s' h = elim (Bool-cases (leb n (s.bank m e))) [
  | inl enough ↦
      let same : sent m r (e, n) s ≡ s' = cc (rw enough at h) in
      (λ d. covered d (bytes_eq e d) (bytes_eq→eq e d) (leb→le n (s.bank m e) enough), same)
  | inr short ↦ absurd (cc (rw short at h))
]
  where
    covered :
        (d : Bytes) (b : Bool)
        → (b ≡ true → e ≡ d)
        → n ≤ s.bank m e
        → (if b then n else 0) ≤ s.bank m d
    covered d true f k = subst (λ x. n ≤ s.bank m x) (f refl) k
    covered d false f k = omega arith

pub sent-bank :
    (m r a d : Bytes) (c : Funds) (s : World)
    → amount c d ≤ s.bank m d
    → (sent m r c s).bank a d + (if bytes_eq a m then amount c d else 0)
      ≡ s.bank a d + (if bytes_eq a r then amount c d else 0)
sent-bank m r a d c s has =
    either (bytes_eq a m) (s.bank a d) (amount c d) _ (λ same. enough (bytes_eq→eq a m same))
  where
    enough : a ≡ m → amount c d ≤ s.bank a d
    enough e = subst (λ b. amount c d ≤ s.bank b d) (sym e) has

    either :
        (b : Bool) (n x y : ℕ)
        → (b ≡ true → x ≤ n)
        → n - (if b then x else 0) + y + (if b then x else 0) ≡ n + y
    either true n x y h = let l = h refl in omega arith
    either false n x y h = omega arith

pub send_ok :
    (m r : Bytes) (c : Funds) (s : World)
    → ((d : Bytes) → amount c d ≤ s.bank m d)
    → (s' : World) × (send m r c s ≡ ok s')
send_ok m r (e, n) s has =
    let own = rw (bytes_eq_refl e) at (has e) in
    (sent m r (e, n) s, rw (le→leb n (s.bank m e) own) refl)

unfoldable pub testnet_laws : FundLaws testnet
testnet_laws = record {
  valid_denom = λ d. bytes_eq d (bytes "stake");
  amount_of = amount;
  coins_lem = λ d n valid more small. ((d, n), (d, n), refl, refl, λ e. refl);
  balance = λ s. s.bank;
  supply = λ s. s.total;
  mint_address = mint;
  blocked = λ a. bytes_eq a mint;
  mint_blocked = bytes_eq_refl mint;
  mint_succeeds = λ c s fits fits_here. (minted mint c s, refl);
  mint_supply = λ c s s' d h.
      let same : minted mint c s ≡ s' = cc h in ap (λ (w : World). w.total d) (sym same);
  mint_balance = λ c s s' a d h.
      let same : minted mint c s ≡ s' = cc h in ap (λ (w : World). w.bank a d) (sym same);
  send_succeeds = λ account c s free has fits. send_ok mint account c s has;
  send_supply =
      λ account c s s' d h. ap (λ (w : World). w.total d) (sym (send-sent mint account c s s' h).1);
  send_balance = λ account c s s' a d h.
      let (has, same) = send-sent mint account c s s' h in
      ap (λ (w : World). w.bank a d + (if bytes_eq a mint then amount c d else 0)) (sym same)
      ∙ sent-bank mint account a d c s (has d);
}
