-- ===== src/Tests/OfInitialState.antt =====
-- The genesis of a testnet at concrete accounts. A codec of which its laws hold: addresses of one byte, coins
-- of one denom, JSON as the numbers in a row, and files by name.
use bluechip_chain_official.Prelude.{
  ℕ, ◌+◌, Bool, arith, ◌≡◌, refl, sym, ◌∙◌, ap, List, [], ◌∷◌, All, Option, none, some, Bytes,
  bytes, bytes_eq, bytes_eq_refl, Outcome, ok, err, text, ◌>>=◌, >>=-eq-ok, if◌then◌else◌, false,
}
use bluechip_chain_official.Cmd.MultiNode.InitialState.{
  AuthState, Balance, BankState, GenesisDoc, GenesisMap, Codec, init_gen_files, auth_name,
  bank_name, set_accounts, set_balances, save_docs, add_supply,
}
use bluechip_chain_official.Cmd.MultiNode.InitialState.Supply.{
  CodecLaws, HasAccounts, HasBalances, init_gen_files-ok,
}

abbrev Disk : Type 0
Disk = Bytes → Option GenesisDoc

abbrev refused : {A : Type 0} → Outcome A
refused = err (text (bytes "not JSON"))

abbrev behind : Bytes → ℕ → Bytes → Outcome Bytes
behind [] n raw = refused
behind (a ∷ []) n raw = ok (a ∷ n ∷ raw)
behind (a ∷ b ∷ more) n raw = refused

abbrev row : List (Balance ℕ) → Outcome Bytes
row [] = ok []
row (b ∷ bs) = row bs >>= behind b.address b.coins

abbrev of_row : Bytes → Outcome (List (Balance ℕ))
of_row [] = ok []
of_row (a ∷ []) = refused
of_row (a ∷ n ∷ raw) = of_row raw >>= λ bs. ok (record { address = a ∷ []; coins = n } ∷ bs)

abbrev read_bank : Bytes → Outcome (BankState ℕ)
read_bank (supply ∷ more ∷ raw) =
    of_row raw >>= λ bs. ok (record { balances = bs; supply = supply; more = more })
read_bank (supply ∷ []) = refused
read_bank [] = refused

abbrev read_auth : Bytes → Outcome (AuthState Bytes)
read_auth [] = refused
read_auth (more ∷ raw) = ok (record { accounts = raw; more = more })

abbrev one_denom : Codec ℕ Bytes ℕ Disk
one_denom = record {
  default_genesis = λ n.
      if bytes_eq n auth_name then 1 ∷ [] else if bytes_eq n bank_name then 5 ∷ 2 ∷ [] else 3 ∷ [];
  unmarshal_auth = read_auth;
  marshal_auth = λ s. ok (s.more ∷ s.accounts);
  unmarshal_bank = read_bank;
  marshal_bank = λ s. row s.balances >>= λ raw. ok (s.supply ∷ s.more ∷ raw);
  pack_accounts = λ accounts. ok accounts;
  sanitize_genesis_balances = λ bs. bs;
  add_coins = λ x y. ok (x + y);
  marshal_indent = λ m. ok (m auth_name);
  save_as = λ file doc d. ok (λ name. if bytes_eq name file then some doc else d name);
}

of_row-behind :
    (b : Balance ℕ) (bs : List (Balance ℕ)) (address raw out : Bytes)
    → of_row raw ≡ ok bs
    → behind address b.coins raw ≡ ok out
    → of_row out ≡ ok (record b { address = address } ∷ bs)
of_row-behind b bs [] raw out reads h = cc h
of_row-behind b bs (a ∷ []) raw out reads h =
    let same : a ∷ b.coins ∷ raw ≡ out = cc h in ap of_row (sym same) ∙ rw reads refl
of_row-behind b bs (a ∷ c ∷ more) raw out reads h = cc h

of_row-row : (bs : List (Balance ℕ)) (raw : Bytes) → row bs ≡ ok raw → of_row raw ≡ ok bs
of_row-row [] raw h = let same : [] ≡ raw = cc h in ap of_row (sym same)
of_row-row (b ∷ bs) raw h =
    let (rest, made, h1) = >>=-eq-ok (row bs) (behind b.address b.coins) h in
    of_row-behind b bs b.address rest raw (of_row-row bs rest made) h1

read_bank-row :
    (s : BankState ℕ) (raw : Bytes) → one_denom.marshal_bank s ≡ ok raw → read_bank raw ≡ ok s
read_bank-row s raw h =
    let (rest, made, h1) = >>=-eq-ok (row s.balances) _ h in
    let same : s.supply ∷ s.more ∷ rest ≡ raw = cc h1 in
    ap read_bank (sym same) ∙ rw (of_row-row s.balances rest made) refl

saved_under :
    (file : Bytes) (doc : GenesisDoc) (d d' : Disk) (name : Bytes)
    → one_denom.save_as file doc d ≡ ok d'
    → d' name ≡ (if bytes_eq name file then some doc else d name)
saved_under file doc d d' name h =
    let same : (λ n. if bytes_eq n file then some doc else d n) ≡ d' = cc h in
    ap (λ (disk : Disk). disk name) (sym same)

amounts :
    (b : Bool) (x y z : ℕ)
    → x + y ≡ z
    → (if b then z else 0) ≡ (if b then x else 0) + (if b then y else 0)
amounts b x y z h = ground arith

unfoldable one_denom_laws : CodecLaws one_denom
one_denom_laws = record {
  unmarshal-marshal_auth =
      λ s raw h. let same : s.more ∷ s.accounts ≡ raw = cc h in ap read_auth (sym same);
  unmarshal-marshal_bank = read_bank-row;
  amount_of = λ x d. if bytes_eq d (bytes "stake") then x else 0;
  add_coins_lem =
      λ x y z d h. let same : x + y ≡ z = cc h in amounts (bytes_eq d (bytes "stake")) x y z same;
  sanitize_lem = λ bs d. refl;
  content = λ file d. d file;
  save_as_lem = λ file doc d d' h. (
    saved_under file doc d d' file h ∙ rw (bytes_eq_refl file) refl,
    λ other ne. saved_under file doc d d' other h ∙ rw ne refl,
  );
}

abbrev two_balances : List (Balance ℕ)
two_balances =
    record { address = 7 ∷ []; coins = 10 } ∷ record { address = 8 ∷ []; coins = 20 } ∷ []

abbrev two_files : List Bytes
two_files = bytes "a" ∷ bytes "b" ∷ []

abbrev started : GenesisDoc
started = record { chain_id = bytes "t"; app_state = 1 ∷ 7 ∷ 8 ∷ [] }

abbrev full : Disk
full name =
    if bytes_eq name (bytes "b")
    then some started
    else (if bytes_eq name (bytes "a") then some started else none)

two_nodes :
    init_gen_files one_denom (bytes "t") (7 ∷ 8 ∷ []) two_balances two_files 2 (λ n. none) ≡ ok full
unfolding init_gen_files set_accounts set_balances save_docs add_supply
two_nodes = refl

init_gen_files-ok_example :
    (states : GenesisMap) × (app_state : Bytes) × (one_denom.marshal_indent states ≡ ok app_state)
    × All
        (λ file. full file ≡ some (record { chain_id = bytes "t"; app_state = app_state }))
        two_files
    × HasAccounts one_denom one_denom_laws (7 ∷ 8 ∷ []) states
    × HasBalances one_denom one_denom_laws two_balances one_denom.default_genesis states
    × ((n : Bytes)
        → bytes_eq n auth_name ≡ false
        → bytes_eq n bank_name ≡ false
        → states n ≡ one_denom.default_genesis n)
unfolding one_denom_laws
init_gen_files-ok_example =
    init_gen_files-ok one_denom one_denom_laws (bytes "t") (7 ∷ 8 ∷ []) two_balances two_files
      (λ n. none) full two_nodes
