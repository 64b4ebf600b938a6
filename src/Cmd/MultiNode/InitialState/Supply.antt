-- ===== src/Cmd/MultiNode/InitialState/Supply.antt =====
-- The supply of a testnet's genesis is what its accounts hold.
use bluechip_chain_official.Prelude.{
  ℕ, zero, suc, ◌+◌, ◌≡◌, refl, sym, ◌∙◌, ap, arith, false, Bool-cases, inl, inr, Option, some,
  List, [], ◌∷◌, All, length, Bytes, bytes_eq, bytes_eq→eq, ok, >>=-eq-ok, must, must-ok,
}
use bluechip_chain_official.Cmd.MultiNode.InitialState.{
  AuthState, Balance, BankState, GenesisDoc, GenesisMap, assign_module, auth_name, bank_name, Codec,
  add_supply, save_docs, set_accounts, set_balances, init_gen_files,
}

-- What all balances hold of a denom.
unfoldable pub total : {Coins : Type 0} → (Coins → Bytes → ℕ) → List (Balance Coins) → Bytes → ℕ
total amount_of [] d = 0
total amount_of (b ∷ bs) d = amount_of b.coins d + total amount_of bs d

-- What the function relies on: JSON is read back as it was written, coins are added denom by denom,
-- sanitizing sorts the balances, and a file that was saved is there.
pub record CodecLaws {Account Packed Coins Fs : Type 0} (c : Codec Account Packed Coins Fs)
    : Type 0 where
  pub unmarshal-marshal_auth :
      (s : AuthState Packed) (raw : Bytes) → c.marshal_auth s ≡ ok raw → c.unmarshal_auth raw ≡ ok s
  pub unmarshal-marshal_bank :
      (s : BankState Coins) (raw : Bytes) → c.marshal_bank s ≡ ok raw → c.unmarshal_bank raw ≡ ok s
  pub amount_of : Coins → Bytes → ℕ
  pub add_coins_lem :
      (x y z : Coins) (d : Bytes)
      → c.add_coins x y ≡ ok z
      → amount_of z d ≡ amount_of x d + amount_of y d
  pub sanitize_lem :
      (bs : List (Balance Coins)) (d : Bytes)
      → total amount_of (c.sanitize_genesis_balances bs) d ≡ total amount_of bs d
  pub content : Bytes → Fs → Option GenesisDoc
  pub save_as_lem :
      (file : Bytes) (doc : GenesisDoc) (fs fs' : Fs)
      → c.save_as file doc fs ≡ ok fs'
      → (content file fs' ≡ some doc)
        × ((other : Bytes) → bytes_eq other file ≡ false → content other fs' ≡ content other fs)

module _ {Account Packed Coins Fs : Type 0} (c : Codec Account Packed Coins Fs)
    (laws : CodecLaws c) where
  open laws use {amount_of, content}

  add_supply-total :
      (bs : List (Balance Coins)) (supply after : Coins) (d : Bytes)
      → add_supply c bs supply ≡ ok after
      → amount_of after d ≡ amount_of supply d + total amount_of bs d
  unfolding add_supply total
  add_supply-total [] supply after d h =
      let same : supply ≡ after = cc h in let e = ap (λ x. amount_of x d) same in omega arith
  add_supply-total (b ∷ bs) supply after d h =
      let (more, added, rest) = >>=-eq-ok (c.add_coins supply b.coins) _ h in
      let one = laws.add_coins_lem supply b.coins more d added in
      let others = add_supply-total bs more after d rest in omega arith

  -- A file that has the document keeps it while others get it.
  save_docs-keeps :
      (doc : GenesisDoc) (n : ℕ) (files : List Bytes) (fs fs' : Fs) (file : Bytes)
      → save_docs c doc n files fs ≡ ok fs'
      → content file fs ≡ some doc
      → content file fs' ≡ some doc
  unfolding save_docs
  save_docs-keeps doc zero files fs fs' file h has =
      let same : fs ≡ fs' = cc h in ap (content file) (sym same) ∙ has
  save_docs-keeps doc (suc n) [] fs fs' file h has = cc h
  save_docs-keeps doc (suc n) (f ∷ files) fs fs' file h has =
      let (fs1, saved, rest) = >>=-eq-ok (c.save_as f doc fs) _ h in
      let (here, others) = laws.save_as_lem f doc fs fs1 saved in
      let has1 : content file fs1 ≡ some doc = elim (Bool-cases (bytes_eq file f)) [
        | inl same ↦ ap (λ x. content x fs1) (bytes_eq→eq file f same) ∙ here
        | inr other ↦ others file other ∙ has
      ] in
      save_docs-keeps doc n files fs1 fs' file rest has1

  save_docs-ok :
      (doc : GenesisDoc) (files : List Bytes) (fs fs' : Fs)
      → save_docs c doc (length files) files fs ≡ ok fs'
      → All (λ file. content file fs' ≡ some doc) files
  unfolding save_docs
  save_docs-ok doc [] fs fs' h = tt
  save_docs-ok doc (f ∷ files) fs fs' h =
      let (fs1, saved, rest) = >>=-eq-ok (c.save_as f doc fs) _ h in
      (
        save_docs-keeps doc (length files) files fs1 fs' f rest
            (laws.save_as_lem f doc fs fs1 saved).0,
        save_docs-ok doc files fs1 fs' rest,
      )

  abbrev pub HasAccounts : List Account → GenesisMap → Type 0
  HasAccounts accounts states =
      (auth : AuthState Packed) × (c.unmarshal_auth (states auth_name) ≡ ok auth)
      × (c.pack_accounts accounts ≡ ok auth.accounts)

  -- The genesis of bank has the balances, and the supply of every denom is that of `before` and what the
  -- balances hold.
  abbrev pub HasBalances : List (Balance Coins) → GenesisMap → GenesisMap → Type 0
  HasBalances balances before states =
      (bank0 : BankState Coins) × (bank : BankState Coins) × (c.unmarshal_bank (before bank_name)
        ≡ ok bank0)
      × (c.unmarshal_bank (states bank_name) ≡ ok bank)
      × (bank.balances ≡ c.sanitize_genesis_balances balances)
      × ((d : Bytes)
          → amount_of bank.supply d ≡ amount_of bank0.supply d + total amount_of balances d)

  set_accounts-ok :
      (accounts : List Account) (states states' : GenesisMap)
      → set_accounts c accounts states ≡ ok states'
      → HasAccounts accounts states'
        × ((n : Bytes) → bytes_eq n auth_name ≡ false → states' n ≡ states n)
  unfolding set_accounts
  set_accounts-ok accounts states states' h =
      let (auth, read, h1) = >>=-eq-ok (must (c.unmarshal_auth (states auth_name))) _ h in
      let (packed, packs, h2) = >>=-eq-ok (c.pack_accounts accounts) _ h1 in
      let auth' : AuthState Packed = record auth { accounts = packed } in
      let (raw, written, h3) = >>=-eq-ok (must (c.marshal_auth auth')) _ h2 in
      let same : assign_module auth_name raw states ≡ states' = cc h3 in
      (
        (
          auth',
          ap (λ (m : GenesisMap). c.unmarshal_auth (m auth_name)) (sym same)
              ∙ laws.unmarshal-marshal_auth auth' raw (must-ok _ written),
          packs,
        ),
        λ n other. ap (λ (m : GenesisMap). m n) (sym same) ∙ rw other refl,
      )

  set_balances-ok :
      (balances : List (Balance Coins)) (states states' : GenesisMap)
      → set_balances c balances states ≡ ok states'
      → HasBalances balances states states'
        × ((n : Bytes) → bytes_eq n bank_name ≡ false → states' n ≡ states n)
  unfolding set_balances
  set_balances-ok balances states states' h =
      let (bank, read, h1) = >>=-eq-ok (must (c.unmarshal_bank (states bank_name))) _ h in
      let sane = c.sanitize_genesis_balances balances in
      let (supply, added, h2) = >>=-eq-ok (add_supply c sane bank.supply) _ h1 in
      let bank' : BankState Coins = record bank { balances = sane; supply = supply } in
      let (raw, written, h3) = >>=-eq-ok (must (c.marshal_bank bank')) _ h2 in
      let same : assign_module bank_name raw states ≡ states' = cc h3 in
      (
        (
          bank,
          bank',
          must-ok _ read,
          ap (λ (m : GenesisMap). c.unmarshal_bank (m bank_name)) (sym same)
              ∙ laws.unmarshal-marshal_bank bank' raw (must-ok _ written),
          refl,
          λ d.
              add_supply-total sane bank.supply supply d added
              ∙ ap (λ n. amount_of bank.supply d + n) (laws.sanitize_lem balances d),
        ),
        λ n other. ap (λ (m : GenesisMap). m n) (sym same) ∙ rw other refl,
      )

  -- Where initGenFiles comes back, with a file for every validator, all files have one document: its
  -- application state is the default but for auth and bank, auth has the accounts, and the supply of bank
  -- is the default one and what the balances hold, in every denom.
  pub init_gen_files-ok :
      (chain_id : Bytes) (accounts : List Account) (balances : List (Balance Coins))
      (files : List Bytes) (fs fs' : Fs)
      → init_gen_files c chain_id accounts balances files (length files) fs ≡ ok fs'
      → (states : GenesisMap) × (app_state : Bytes) × (c.marshal_indent states ≡ ok app_state)
        × All
            (λ file.
              content file fs' ≡ some (record { chain_id = chain_id; app_state = app_state }))
            files
        × HasAccounts accounts states
        × HasBalances balances c.default_genesis states
        × ((n : Bytes)
            → bytes_eq n auth_name ≡ false
            → bytes_eq n bank_name ≡ false
            → states n ≡ c.default_genesis n)
  unfolding init_gen_files
  init_gen_files-ok chain_id accounts balances files fs fs' h =
      let (m1, first, h1) = >>=-eq-ok (set_accounts c accounts c.default_genesis) _ h in
      let (m2, second, h2) = >>=-eq-ok (set_balances c balances m1) _ h1 in
      let (app_state, json, saved) = >>=-eq-ok (c.marshal_indent m2) _ h2 in
      let ((auth, read, packs), keeps1) = set_accounts-ok accounts c.default_genesis m1 first in
      let ((bank0, bank, read0, read1, held, supply), keeps2) =
        set_balances-ok balances m1 m2 second in
      (
        m2,
        app_state,
        json,
        save_docs-ok _ files fs fs' saved,
        (auth, ap c.unmarshal_auth (keeps2 auth_name refl) ∙ read, packs),
        (
          bank0,
          bank,
          ap c.unmarshal_bank (sym (keeps1 bank_name refl)) ∙ read0,
          read1,
          held,
          supply,
        ),
        λ n not_auth not_bank. keeps2 n not_bank ∙ keeps1 n not_auth,
      )
