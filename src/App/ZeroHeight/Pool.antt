-- ===== src/App/ZeroHeight/Pool.antt =====
-- Where the rewards that nobody withdrew go when the validators are created again.
use bluechip_chain_official.Prelude.{◌≡◌, ◌≢◌, refl, ◌∙◌, List, [], ◌∷◌, map, Bytes, All, ok}
use bluechip_chain_official.App.ZeroHeight.{Validator, Keepers, each, reinitialize_validator}

-- What the loop relies on of the distribution keeper: the fee pool is what was set, and the hook, which
-- creates the records of one validator, leaves it and what is outstanding for the others.
pub record PoolLaws {S Coins : Type 0} (k : Keepers S Coins) : Type 0 where
  pub set_fee_pool_lem :
      (c : Coins) (s : S)
      → (s' : S) × (k.set_fee_pool c s ≡ ok s')
        × (k.fee_pool s' ≡ ok c)
        × ((b : Bytes) → k.outstanding_rewards_coins b s' ≡ k.outstanding_rewards_coins b s)
  pub after_validator_created_lem :
      (a : Bytes) (s : S)
      → (s' : S) × (k.after_validator_created a s ≡ ok s')
        × (k.fee_pool s' ≡ k.fee_pool s)
        × ((b : Bytes) → b ≢ a → k.outstanding_rewards_coins b s' ≡ k.outstanding_rewards_coins b s)

-- A validator, the bytes of its address, and what is outstanding for it.
pub record Owed (Coins : Type 0) : Type 0 where
  pub validator : Validator
  pub address : Bytes
  pub coins : Coins

-- No two of them have one address.
abbrev pub DistinctAddresses : {Coins : Type 0} → List (Owed Coins) → Type 0
DistinctAddresses [] = Unit
DistinctAddresses (o ∷ os) = All (λ p. p.address ≢ o.address) os × DistinctAddresses os

module _ {S Coins : Type 0} (k : Keepers S Coins) (laws : PoolLaws k) where
  abbrev pub IsOwed : S → Owed Coins → Type 0
  IsOwed s o =
      (k.string_to_bytes o.validator.operator ≡ ok o.address)
      × (k.outstanding_rewards_coins o.address s ≡ ok o.coins)

  -- The pool with everything added that is owed, one after another.
  abbrev pub with_owed : Coins → List (Owed Coins) → Coins
  with_owed pool [] = pool
  with_owed pool (o ∷ os) = with_owed (k.add_coins pool o.coins) os

  one_donated :
      (o : Owed Coins) (pool : Coins) (s : S)
      → IsOwed s o
      → k.fee_pool s ≡ ok pool
      → (s' : S) × (reinitialize_validator k o.validator s ≡ ok s')
        × (k.fee_pool s' ≡ ok (k.add_coins pool o.coins))
        × ((b : Bytes)
            → b ≢ o.address
            → k.outstanding_rewards_coins b s' ≡ k.outstanding_rewards_coins b s)
  unfolding reinitialize_validator
  one_donated o pool s (code, due) has =
      let (s1, sets, pool1, same1) = laws.set_fee_pool_lem (k.add_coins pool o.coins) s in
      let (s2, hooks, pool2, same2) = laws.after_validator_created_lem o.address s1 in
      (
        s2,
        rw code (rw due (rw has (rw sets (rw hooks)))),
        pool2 ∙ pool1,
        λ b ne. same2 b ne ∙ same1 b,
      )

  still_owed :
      (a : Bytes) (s s' : S) (os : List (Owed Coins))
      → ((b : Bytes) → b ≢ a → k.outstanding_rewards_coins b s' ≡ k.outstanding_rewards_coins b s)
      → All (λ p. p.address ≢ a) os
      → All (IsOwed s) os
      → All (IsOwed s') os
  still_owed a s s' [] same ne owed = tt
  still_owed a s s' (o ∷ os) same (ne, nes) ((code, due), owed) =
      ((code, same o.address ne ∙ due), still_owed a s s' os same nes owed)

  -- Validators with addresses of their own are created again without an error, and the community pool
  -- then holds what it held and everything that was outstanding for them, each added once.
  pub reinitialize-fee_pool :
      (os : List (Owed Coins)) (pool : Coins) (s : S)
      → DistinctAddresses os
      → All (IsOwed s) os
      → k.fee_pool s ≡ ok pool
      → (s' : S) × (each (reinitialize_validator k) (map (λ o. o.validator) os) s ≡ ok s')
        × (k.fee_pool s' ≡ ok (with_owed pool os))
  reinitialize-fee_pool [] pool s distinct owed has = (s, refl, has)
  reinitialize-fee_pool (o ∷ os) pool s (ne, distinct) (due, owed) has =
      let (s1, step, pool1, same) = one_donated o pool s due has in
      let (s', loop, final) =
        reinitialize-fee_pool os (k.add_coins pool o.coins) s1 distinct
          (still_owed o.address s s1 os same ne owed) pool1 in
      (s', rw step loop, final)
