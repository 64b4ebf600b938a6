-- ===== src/App/ZeroHeight/Sample.antt =====
-- Keepers of which the laws hold: the validators and what is outstanding by address, and a fee pool of one
-- coin. What the laws do not speak of changes nothing.
use bluechip_chain_official.Prelude.{
  ℕ, ◌+◌, ◌≡◌, ◌≢◌, refl, sym, ap, Bool, Bool-cases, inl, inr, Option, none, some, List, [], Bytes,
  bytes, bytes_eq, bytes_eq_refl, bytes_eq→eq, text, Outcome, ok, err, if◌then◌else◌,
}
use bluechip_chain_official.App.ZeroHeight.{Validator, Keepers}
use bluechip_chain_official.App.ZeroHeight.Validators.{ValidatorLaws}
use bluechip_chain_official.App.ZeroHeight.Pool.{PoolLaws}

-- A validator without its operator: the unbonding height, whether it is jailed, and the rest.
abbrev pub Held : Type 0
Held = ℕ × Bool × ℕ

pub record World : Type 0 where
  pub height : ℕ
  pub keys : List Bytes
  pub held : Bytes → Option Held
  pub owed : Bytes → ℕ
  pub pool : ℕ

abbrev at_address : Bytes → Option Held → Outcome Validator
at_address a none = err (text (bytes "not found"))
at_address a (some (h, j, m)) =
    ok (record { operator = a; unbonding_height = h; jailed = j; more = m })

abbrev held_of : Validator → Held
held_of v = (v.unbonding_height, v.jailed, v.more)

-- A function changed at one address.
abbrev changed : {A : Type 0} → Bytes → A → (Bytes → A) → Bytes → A
changed a x f b = if bytes_eq b a then x else f b

abbrev pub keepers : Keepers World ℕ
keepers = record {
  block_height = λ s. s.height;
  with_block_height = λ h s. record s { height = h };
  val_address_from_bech32 = λ a. ok a;
  must_acc_address_from_bech32 = λ a. ok a;
  val_address_string = λ a. a;
  string_to_bytes = λ a. ok a;
  assert_invariants = λ s. ok s;
  validators = λ s. ok [];
  all_delegations = λ s. ok [];
  withdraw_validator_commission = λ a s. ok (s, none);
  withdraw_delegation_rewards = λ a b s. ok (s, none);
  delete_all_validator_slash_events = λ s. ok s;
  delete_all_validator_historical_rewards = λ s. ok s;
  outstanding_rewards_coins = λ a s. ok (s.owed a);
  fee_pool = λ s. ok s.pool;
  add_coins = λ c d. c + d;
  set_fee_pool = λ c s. ok (record s { pool = c });
  after_validator_created = λ a s. ok (record s { owed = changed a 0 s.owed });
  before_delegation_created = λ a b s. ok s;
  after_delegation_modified = λ a b s. ok s;
  redelegations = λ s. ok [];
  set_redelegation = λ p s. ok s;
  unbonding_delegations = λ s. ok [];
  set_unbonding_delegation = λ p s. ok s;
  validator_keys = λ s. s.keys;
  close_iterator = λ s. ok tt;
  get_validator = λ a s. at_address a (s.held a);
  set_validator = λ v s. ok (record s { held = changed v.operator (some (held_of v)) s.held });
  apply_validator_set_updates = λ s. ok s;
  signing_infos = λ s. ok [];
  set_signing_info = λ a i s. ok (s, none);
}

found : (a : Bytes) (o : Option Held) (v : Validator) → at_address a o ≡ ok v → v.operator ≡ a
found a none v h = cc
found a (some (g, j, m)) v h =
    let same : record { operator = a; unbonding_height = g; jailed = j; more = m } ≡ v = cc h in
    ap (λ (x : Validator). x.operator) (sym same)

other : {A : Type 0} (a b : Bytes) (x : A) (f : Bytes → A) → b ≢ a → changed a x f b ≡ f b
other a b x f ne = elim (Bool-cases (bytes_eq b a)) [
  | inl e ↦ absurd (ne (bytes_eq→eq b a e))
  | inr e ↦ rw e
]

pub validator_laws : ValidatorLaws keepers
validator_laws = record {
  address = λ a. a;
  found_under = λ a v s h. found a (s.held a) v h;
  set_validator_lem = λ v s. (
    record s { held = changed v.operator (some (held_of v)) s.held },
    refl,
    rw (bytes_eq_refl v.operator),
    λ a ne. ap (at_address a) (other v.operator a (some (held_of v)) s.held ne),
  );
}

pub pool_laws : PoolLaws keepers
pool_laws = record {
  set_fee_pool_lem = λ c s. (record s { pool = c }, refl, refl, λ b. refl);
  after_validator_created_lem = λ a s. (
    record s { owed = changed a 0 s.owed },
    refl,
    refl,
    λ b ne. ap (λ n. ok n) (other a b 0 s.owed ne),
  );
}
