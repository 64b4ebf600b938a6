-- ===== src/Cmd/InPlace/Accounts.antt =====
-- The accounts to fund are the addresses of the parts that are not empty, in their order.
use bluechip_chain_official.Prelude.{
  ◌≡◌, ◌∙◌, sym, refl, ap, Bool-cases, inl, inr, Bytes, bytes_eq, List, [], ◌∷◌, ◌++◌, append_assoc,
  append-nil, Outcome, ok, err, panic, stuck, ◌>>=◌, if◌then◌else◌, Error, wrap, bytes,
}
use bluechip_chain_official.Cmd.InPlace.{wrapped, parse_accounts}

-- The parts that are not empty.
unfoldable pub non_empty : List Bytes → List Bytes
non_empty [] = []
non_empty (s ∷ ss) = let rest = non_empty ss in if bytes_eq s [] then rest else s ∷ rest

-- The addresses of some strings, or the error of the first that has none.
unfoldable pub addresses : (Bytes → Outcome Bytes) → List Bytes → Outcome (List Bytes)
addresses address [] = ok []
addresses address (s ∷ ss) = do a ← address s; rest ← addresses address ss; ok (a ∷ rest)

appended : Outcome (List Bytes) → List Bytes → Outcome (List Bytes)
appended r funded = r >>= λ more. ok (funded ++ more)

appended_first :
    (a : Bytes) (funded : List Bytes) (r : Outcome (List Bytes))
    → appended r (funded ++ a ∷ []) ≡ appended (r >>= λ rest. ok (a ∷ rest)) funded
unfolding appended
appended_first a funded (ok rest) = ap ok (append_assoc funded (a ∷ []) rest)
appended_first a funded (err e) = refl
appended_first a funded panic = refl
appended_first a funded stuck = refl

module _ (address : Bytes → Outcome Bytes) where
  with_first :
      (r : Outcome Bytes) (ss funded : List Bytes) (next : List Bytes → Outcome (List Bytes))
      → ((more : List Bytes) → next more ≡ appended (addresses (λ s. wrapped (address s)) ss) more)
      → (r >>= λ a. next (funded ++ a ∷ []))
        ≡ appended
            (r >>= λ a. addresses (λ s. wrapped (address s)) ss >>= λ rest. ok (a ∷ rest))
            funded
  unfolding appended
  with_first (ok a) ss funded next h =
      h (funded ++ a ∷ []) ∙ appended_first a funded (addresses (λ s. wrapped (address s)) ss)
  with_first (err e) ss funded next h = refl
  with_first panic ss funded next h = refl
  with_first stuck ss funded next h = refl

  parse_accounts-addresses :
      (accounts funded : List Bytes)
      → parse_accounts address accounts funded ≡ (
          addresses (λ s. wrapped (address s)) (non_empty accounts) >>= λ more. ok (funded ++ more))
  unfolding parse_accounts non_empty addresses appended
  parse_accounts-addresses [] funded = ap ok (sym (append-nil funded))
  parse_accounts-addresses (s ∷ ss) funded = elim (Bool-cases (bytes_eq s [])) [
    | inl empty ↦ rw empty (parse_accounts-addresses ss funded)
    | inr other ↦ rw other (
        with_first (wrapped (address s)) (non_empty ss) funded (parse_accounts address ss)
          (parse_accounts-addresses ss))
  ]

  -- Each string has the address that stands at its place.
  abbrev pub HaveAddresses : List Bytes → List Bytes → Type 0
  HaveAddresses [] [] = Unit
  HaveAddresses [] (a ∷ as') = ⊥
  HaveAddresses (s ∷ ss) [] = ⊥
  HaveAddresses (s ∷ ss) (a ∷ as') = (address s ≡ ok a) × HaveAddresses ss as'

  addresses-ok :
      (ss found : List Bytes)
      → HaveAddresses ss found
      → addresses (λ s. wrapped (address s)) ss ≡ ok found
  unfolding addresses
  addresses-ok [] [] h = refl
  addresses-ok [] (a ∷ as') h = absurd h
  addresses-ok (s ∷ ss) [] h = absurd h
  addresses-ok (s ∷ ss) (a ∷ as') (e, h) = rw e (rw (addresses-ok ss as' h) refl)

  addresses-err :
      (before found rest : List Bytes) (s : Bytes) (e : Error)
      → HaveAddresses before found
      → address s ≡ err e
      → addresses (λ s. wrapped (address s)) (before ++ s ∷ rest)
        ≡ err (wrap (bytes "invalid bech32 address format ") e)
  unfolding addresses
  addresses-err [] [] rest s e h bad = rw bad refl
  addresses-err [] (a ∷ as') rest s e h bad = absurd h
  addresses-err (x ∷ xs) [] rest s e h bad = absurd h
  addresses-err (x ∷ xs) (a ∷ as') rest s e (found, h) bad =
      rw found (rw (addresses-err xs as' rest s e h bad) refl)

  -- Where every part that is not empty has an address, the accounts to fund are those so far and behind them
  -- these addresses, in their order. Where one has none, and all before it have, the loop ends with the error
  -- of that one, behind the text of the function.
  pub parse_accounts_lem :
      (accounts funded : List Bytes)
      → ((found : List Bytes)
          → HaveAddresses (non_empty accounts) found
          → parse_accounts address accounts funded ≡ ok (funded ++ found))
        × ((before found rest : List Bytes) (s : Bytes) (e : Error)
            → non_empty accounts ≡ before ++ s ∷ rest
            → HaveAddresses before found
            → address s ≡ err e
            → parse_accounts address accounts funded
              ≡ err (wrap (bytes "invalid bech32 address format ") e))
  parse_accounts_lem accounts funded = (
    λ found h.
        parse_accounts-addresses accounts funded
        ∙ rw (addresses-ok (non_empty accounts) found h) refl,
    λ before found rest s e split h bad.
        parse_accounts-addresses accounts funded
        ∙ rw split (rw (addresses-err before found rest s e h bad) refl),
  )
