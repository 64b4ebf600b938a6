-- ===== src/Api/Reflect/Contract.antt =====
-- What the comments on protoreflect.Message promise of a message's methods, whatever the message is, but for
-- what they say of a composite value that is nil: of that the generated code keeps less.
use bluechip_chain_official.Prelude.{
  ◌≡◌, ◌≢◌, Bool, true, false, Option, some, List, [], ◌∷◌, Bytes, Outcome, ok, ◌>>=◌,
}
use bluechip_chain_official.Api.Reflect.{
  Value, text_value, bool_value, message_value, other_value, Visitor, visit, nonempty, present,
  deref,
}

-- The methods, over the full names of the fields. A method on a pointer that changes the message
-- returns it.
pub record Methods (M P : Type 0) : Type 1 where
  pub names : List Bytes
  pub range : (S : Type 0) → Visitor P S → Option M → S → Outcome S
  pub has : Bytes → Option M → Outcome Bool
  pub clear : Bytes → Option M → Outcome M
  pub get : Bytes → Option M → Outcome (Value P)
  pub set : Bytes → Value P → Option M → Outcome M
  pub mutable : Bytes → Option M → Outcome (M × Value P)
  pub new_field : Bytes → Outcome (Value P)
  pub get_unknown : Option M → Outcome (Option Bytes)
  pub set_unknown : Option Bytes → Option M → Outcome M

-- A scalar is populated where it is not the zero value, a message where it is not nil.
abbrev pub populated : {P : Type 0} → Value P → Bool
populated (text_value s) = nonempty s
populated (bool_value b) = b
populated (message_value p) = present p
populated other_value = false

-- Every populated field of the list in turn, until `f` returns false.
abbrev pub walk :
    {M P S : Type 0}
    → (Bytes → Option M → Outcome (Value P))
    → Visitor P S
    → Option M
    → List Bytes
    → S
    → Outcome S
walk get f x [] s = ok s
walk get f x (n ∷ ns) s = get n x >>= λ v. visit f (populated v) n v (walk get f x ns) s

pub record IsMessage {M P : Type 0} (o : Methods M P) : Type 1 where
  -- `Range` calls `f` for every populated field, and no other, until `f` returns false.
  pub range-walk :
      (S : Type 0) (f : Visitor P S) (m : M) (s : S)
      → o.range S f (some m) s ≡ walk o.get f (some m) o.names s
  -- `Has` reports whether what `Get` returns is populated.
  pub has-get : (n : Bytes) (x : Option M) → o.has n x ≡ (o.get n x >>= λ v. ok (populated v))
  -- After `Clear`, `Has` reports false.
  pub clear-has :
      (n : Bytes) (x : Option M)
      → (o.clear n x >>= λ m. o.has n (some m)) ≡ (o.clear n x >>= λ m. ok false)
  -- What `Set` stored, `Get` retrieves.
  pub set-get :
      (n : Bytes) (v : Value P) (x : Option M)
      → (o.set n v x >>= λ m. o.get n (some m)) ≡ (o.set n v x >>= λ m. ok v)
  -- `Set` and `Clear` change no other field.
  pub set_other :
      (n k : Bytes) (v : Value P) (m m' : M)
      → n ≢ k
      → o.set n v (some m) ≡ ok m'
      → o.get k (some m') ≡ o.get k (some m)
  pub clear_other :
      (n k : Bytes) (m m' : M)
      → n ≢ k
      → o.clear n (some m) ≡ ok m'
      → o.get k (some m') ≡ o.get k (some m)
  -- `Mutable` returns what `Get` retrieves afterwards, and the field is populated then.
  pub mutable-get :
      (n : Bytes) (x : Option M)
      → (o.mutable n x >>= λ r. o.get n (some r.0)) ≡ (o.mutable n x >>= λ r. ok r.1)
  pub mutable-has :
      (n : Bytes) (x : Option M)
      → (o.mutable n x >>= λ r. o.has n (some r.0)) ≡ (o.mutable n x >>= λ r. ok true)
  -- On a message that is not nil `Mutable` of a composite field comes back, with a value that is not nil: it
  -- allocates the field where that is not populated.
  pub mutable_allocates :
      (n : Bytes) (m : M) (p : Option P)
      → o.new_field n ≡ ok (message_value p)
      → (m' : M) × (p' : P) × (o.mutable n (some m) ≡ ok (m', message_value (some p')))
  -- `NewField` returns a value that can be assigned to the field, of every message that is not nil.
  pub new_field-set :
      (n : Bytes) (m : M)
      → (o.new_field n >>= λ v. o.set n v (some m) >>= λ m'. ok (tt {0}))
        ≡ (o.get n (some m) >>= λ v. ok (tt {0}))
  -- The unknown fields are those that were stored, and the others stay.
  pub set_unknown-get_unknown :
      (u : Option Bytes) (x : Option M)
      → (o.set_unknown u x >>= λ m. o.get_unknown (some m)) ≡ (o.set_unknown u x >>= λ m. ok u)
  pub set_unknown-get :
      (u : Option Bytes) (n : Bytes) (x : Option M)
      → (o.set_unknown u x >>= λ m. o.get n (some m)) ≡ (deref x >>= λ m. o.get n (some m))
