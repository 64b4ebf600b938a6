-- ===== src/App/Accounts/Lookup.antt =====
-- What the two maps say of an account.
use bluechip_chain_official.Prelude.{
  ◌≡◌, ◌∙◌, refl, ap, arith, Bool, true, false, Option, none, some, List, [], ◌∷◌, ltb,
  if◌then◌else◌, length, ◌||◌,
}
use bluechip_chain_official.App.Accounts.{
  Account, Permission, same, lookup, assign, dup_perms, get_macc_perms, block_all, keys,
  blocked_addresses,
}

lookup-assign :
    {V : Type 0} (a b : Account) (v : V) (m : List (Account × V))
    → lookup (assign a v m) b ≡ (if same a b then some v else lookup m b)
unfolding lookup assign
lookup-assign a b v [] = refl
lookup-assign a b v ((k, w) ∷ m) = ground (arith, lookup-assign a b v m)

-- Whether an account is in a list.
unfoldable pub contains : List Account → Account → Bool
contains [] a = false
contains (b ∷ bs) a = same b a || contains bs a

-- The last entry of an account in the configuration.
unfoldable pub last_entry : {V : Type 0} → List (Account × V) → Account → Option V → Option V
last_entry [] a found = found
last_entry ((k, v) ∷ m) a found = last_entry m a (if same k a then some v else found)

lookup-dup_perms :
    (entries dup : List (Account × List Permission)) (a : Account)
    → lookup (dup_perms entries dup) a ≡ last_entry entries a (lookup dup a)
unfolding dup_perms last_entry
lookup-dup_perms [] dup a = refl
lookup-dup_perms ((k, perms) ∷ entries) dup a =
    lookup-dup_perms entries (assign k perms dup) a
    ∙ ap (λ (o : Option (List Permission)). last_entry entries a o) (lookup-assign k a perms dup)

-- `GetMaccPerms` has the permissions of an account's last entry, and nothing for an account without
-- an entry.
pub lookup-get_macc_perms :
    (entries : List (Account × List Permission)) (a : Account)
    → lookup (get_macc_perms entries) a ≡ last_entry entries a none
unfolding get_macc_perms lookup
lookup-get_macc_perms entries a = lookup-dup_perms entries [] a

lookup-block_all :
    (addrs : List Account) (result : List (Account × Bool)) (a : Account)
    → lookup (block_all addrs result) a ≡ (if contains addrs a then some true else lookup result a)
unfolding block_all contains
lookup-block_all [] result a = refl
lookup-block_all (b ∷ bs) result a =
    ground (arith, lookup-block_all bs (assign b true result) a, lookup-assign b a true result)

-- Whether an account has an entry in the configuration.
unfoldable pub has_entry : {V : Type 0} → List (Account × V) → Account → Bool
has_entry [] a = false
has_entry ((k, v) ∷ entries) a = same k a || has_entry entries a

contains-keys-assign :
    {V : Type 0} (k a : Account) (v : V) (m : List (Account × V))
    → contains (keys (assign k v m)) a ≡ (same k a || contains (keys m) a)
unfolding contains keys assign
contains-keys-assign k a v [] = refl
contains-keys-assign k a v ((j, w) ∷ m) = ground (arith, contains-keys-assign k a v m)

-- The keys of the map are the accounts of the entries.
contains-keys-dup_perms :
    (entries dup : List (Account × List Permission)) (a : Account)
    → contains (keys (dup_perms entries dup)) a ≡ (has_entry entries a || contains (keys dup) a)
unfolding dup_perms has_entry
contains-keys-dup_perms [] dup a = refl
contains-keys-dup_perms ((k, perms) ∷ entries) dup a = ground (
  arith,
  contains-keys-dup_perms entries (assign k perms dup) a,
  contains-keys-assign k a perms dup,
)

-- Where the list of addresses is not empty, an account is blocked just when it is in the list;
-- otherwise, when it has an entry in the permissions.
pub lookup-blocked_addresses :
    (addrs : List Account) (entries : List (Account × List Permission)) (a : Account)
    → lookup (blocked_addresses addrs entries) a ≡ (
        if (if ltb 0 (length addrs) then contains addrs a else has_entry entries a)
        then some true
        else none)
unfolding blocked_addresses lookup get_macc_perms keys contains
lookup-blocked_addresses [] entries a =
    lookup-block_all (keys (get_macc_perms entries)) [] a
    ∙ ap (λ (b : Bool). if b then some true else none)
        (contains-keys-dup_perms entries [] a ∙ or-false (has_entry entries a))
  where
    or-false : (b : Bool) → (b || false) ≡ b
    or-false true = refl
    or-false false = refl
lookup-blocked_addresses (b ∷ bs) entries a =
    let some-in : ltb 0 (length (b ∷ bs)) ≡ true = ground arith in
    rw some-in (lookup-block_all (b ∷ bs) [] a)
