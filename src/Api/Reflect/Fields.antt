-- ===== src/Api/Reflect/Fields.antt =====
-- The contract of a message, from what each case of its switches does.
use bluechip_chain_official.Prelude.{
  ◌≡◌, ◌≢◌, refl, sym, ◌∙◌, ap, Bool, true, false, Bool-cases, inl, inr, Option, none, some, List,
  [], ◌∷◌, map, Bytes, bytes_eq, bytes_eq→eq, Outcome, ok, err, panic, stuck, ◌>>=◌, >>=-eq-ok,
}
use bluechip_chain_official.Api.Reflect.{message_value, Value, Visitor, deref, switch}
use bluechip_chain_official.Api.Reflect.Contract.{Methods, IsMessage, populated, walk}

-- A method that finds the field and then reads the message.
abbrev pub on :
    {F M A : Type 0} → (Bytes → Outcome F) → (F → M → Outcome A) → Bytes → Option M → Outcome A
on field body n x = field n >>= λ f. deref x >>= λ m. body f m

-- The cases of the switches, on the fields `F`.
pub record Cases (F M P : Type 0) : Type 0 where
  pub name : F → Bytes
  pub all : List F
  pub has_at : F → M → Bool
  pub clear_at : F → M → M
  pub get_at : F → M → Value P
  pub set_at : F → Value P → M → Outcome M
  pub mutable_at : F → Option M → Outcome (M × Value P)
  pub new_at : F → Value P
  pub unknown_of : M → Option Bytes
  pub with_unknown : Option Bytes → M → M

pub record CaseLaws {F M P : Type 0} (c : Cases F M P) : Type 0 where
  pub has-get_at : (f : F) (m : M) → c.has_at f m ≡ populated (c.get_at f m)
  pub clear-has_at : (f : F) (m : M) → c.has_at f (c.clear_at f m) ≡ false
  pub set-get_at :
      (f : F) (v : Value P) (m : M)
      → (c.set_at f v m >>= λ m'. ok (c.get_at f m')) ≡ (c.set_at f v m >>= λ m'. ok v)
  pub set_other_at :
      (f g : F) (v : Value P) (m m' : M)
      → f ≢ g
      → c.set_at f v m ≡ ok m'
      → c.get_at g m' ≡ c.get_at g m
  pub clear_other_at : (f g : F) (m : M) → f ≢ g → c.get_at g (c.clear_at f m) ≡ c.get_at g m
  pub mutable-get_at :
      (f : F) (x : Option M)
      → (c.mutable_at f x >>= λ r. ok (c.get_at f r.0)) ≡ (c.mutable_at f x >>= λ r. ok r.1)
  pub mutable-has_at :
      (f : F) (x : Option M)
      → (c.mutable_at f x >>= λ r. ok (c.has_at f r.0)) ≡ (c.mutable_at f x >>= λ r. ok true)
  pub mutable_allocates_at :
      (f : F) (m : M) (p : Option P)
      → c.new_at f ≡ message_value p
      → (m' : M) × (p' : P) × (c.mutable_at f (some m) ≡ ok (m', message_value (some p')))
  pub new-set_at : (f : F) (m : M) → (c.set_at f (c.new_at f) m >>= λ m'. ok (tt {0})) ≡ ok (tt {0})
  pub unknown_lem : (u : Option Bytes) (m : M) → c.unknown_of (c.with_unknown u m) ≡ u
  pub unknown_other :
      (u : Option Bytes) (f : F) (m : M) → c.get_at f (c.with_unknown u m) ≡ c.get_at f m

-- The case that a name leads to is the case of that name.
pub switch-name :
    {F : Type 0} (name : F → Bytes) (all : List F) (n : Bytes) (f : F)
    → switch name all n ≡ ok f
    → name f ≡ n
switch-name name [] n f h = cc
switch-name name (g ∷ gs) n f h = elim (Bool-cases (bytes_eq n (name g))) [
  | inl e ↦
      let found : ok g ≡ ok f = rw e at h in sym (bytes_eq→eq n (name g) e ∙ ap name (cc found))
  | inr e ↦ switch-name name gs n f (rw e at h)
]

module _ {F M P : Type 0} (c : Cases F M P) where
  -- The methods, made of the cases.
  abbrev pub methods : ((S : Type 0) → Visitor P S → Option M → S → Outcome S) → Methods M P
  methods range =
      let field = switch c.name c.all in
      record {
        names = map c.name c.all;
        range = range;
        has = on field λ f m. ok (c.has_at f m);
        clear = on field λ f m. ok (c.clear_at f m);
        get = on field λ f m. ok (c.get_at f m);
        set = λ n v. on field (λ f m. c.set_at f v m) n;
        mutable = λ n x. field n >>= λ f. c.mutable_at f x;
        new_field = λ n. field n >>= λ f. ok (c.new_at f);
        get_unknown = λ x. deref x >>= λ m. ok (c.unknown_of m);
        set_unknown = λ u x. deref x >>= λ m. ok (c.with_unknown u m);
      }

assigned :
    {F A B V : Type 0} (r : Outcome F) (new : F → V) (set : F → V → Outcome A) (g : F → B)
    → ((f : F) → (set f (new f) >>= λ a. ok (tt {0})) ≡ ok (tt {0}))
    → ((r >>= λ f. ok (new f)) >>= λ v. (r >>= λ f. set f v) >>= λ a. ok (tt {0}))
      ≡ ((r >>= λ f. ok (g f)) >>= λ b. ok (tt {0}))
assigned (ok f) new set g h = h f
assigned (err e) new set g h = refl
assigned panic new set g h = refl
assigned stuck new set g h = refl

again :
    {F A B : Type 0} (r : Outcome F) (call : F → Outcome A) (k : F → A → Outcome B)
    (e : A → Outcome B)
    → ((f : F) → (call f >>= k f) ≡ (call f >>= e))
    → (r >>= call >>= λ z. r >>= λ g. k g z) ≡ (r >>= call >>= e)
again (ok f) call k e h = h f
again (err x) call k e h = refl
again panic call k e h = refl
again stuck call k e h = refl

-- What a call that stores a value does not touch.
pub stored_elsewhere :
    {A M V : Type 0} (call : Outcome A) (k : A → M) (g : M → V) (m m' : M)
    → ((a : A) → g (k a) ≡ g m)
    → (call >>= λ a. ok (k a)) ≡ ok m'
    → g m' ≡ g m
stored_elsewhere call k g m m' same h =
    let (a, called, e) = >>=-eq-ok call (λ a. ok (k a)) h in ap g (sym (cc e)) ∙ same a

-- Two calls with one name: on a message, and on what the first made of it.
module _ {F M : Type 0} where
  twice :
      {A B : Type 0} (r : Outcome F) (x : Option M) (call : F → M → Outcome A)
      (k : F → A → Outcome B) (e : A → Outcome B)
      → ((f : F) (m : M) → (call f m >>= k f) ≡ (call f m >>= e))
      → (r >>= (λ f. deref x >>= call f) >>= λ z. r >>= λ g. k g z)
        ≡ (r >>= (λ f. deref x >>= call f) >>= e)
  twice (ok f) (some m) call k e h = h f m
  twice (ok f) none call k e h = refl
  twice (err x) y call k e h = refl
  twice panic y call k e h = refl
  twice stuck y call k e h = refl

  one_read :
      {A : Type 0} (r : Outcome F) (x : Option M) (g g' : F → M → A)
      → ((f : F) (m : M) → g f m ≡ g' f m)
      → (r >>= λ f. deref x >>= λ m. ok (g f m)) ≡ (r >>= λ f. deref x >>= λ m. ok (g' f m))
  one_read (ok f) (some m) g g' h = ap ok (h f m)
  one_read (ok f) none g g' h = refl
  one_read (err e) x g g' h = refl
  one_read panic x g g' h = refl
  one_read stuck x g g' h = refl

  then_read :
      {A B : Type 0} (r : Outcome F) (x : Option M) (g : F → M → A) (k : A → B)
      → ((r >>= λ f. deref x >>= λ m. ok (g f m)) >>= λ v. ok (k v))
        ≡ (r >>= λ f. deref x >>= λ m. ok (k (g f m)))
  then_read (ok f) (some m) g k = refl
  then_read (ok f) none g k = refl
  then_read (err e) x g k = refl
  then_read panic x g k = refl
  then_read stuck x g k = refl

  unknown_kept :
      {A : Type 0} (r : Outcome F) (x : Option M) (w : M → M) (g : F → M → A)
      → ((f : F) (m : M) → g f (w m) ≡ g f m)
      → ((deref x >>= λ m. ok (w m)) >>= λ m. r >>= λ f. ok (g f m))
        ≡ (deref x >>= λ m. r >>= λ f. ok (g f m))
  unknown_kept (ok f) (some m) w g h = ap ok (h f m)
  unknown_kept (err e) (some m) w g h = refl
  unknown_kept panic (some m) w g h = refl
  unknown_kept stuck (some m) w g h = refl
  unknown_kept r none w g h = refl

  -- Another name leads to another case, or to the panic.
  elsewhere :
      {A : Type 0} (name : F → Bytes) (all : List F) (n k : Bytes) (call : F → Outcome M)
      (g : F → M → A) (m m' : M)
      → n ≢ k
      → (switch name all n >>= call) ≡ ok m'
      → ((f f' : F) → f ≢ f' → call f ≡ ok m' → g f' m' ≡ g f' m)
      → (switch name all k >>= λ f. ok (g f m')) ≡ (switch name all k >>= λ f. ok (g f m))
  elsewhere name all n k call g m m' ne h step =
      let (f, here, sets) = >>=-eq-ok (switch name all n) call h in
      read (switch name all k) λ f' there.
        step f f'
          (λ e.
            ne (sym (switch-name name all n f here) ∙ ap name e ∙ switch-name name all k f' there))
          sets
    where
      read :
          (r : Outcome F)
          → ((f : F) → r ≡ ok f → g f m' ≡ g f m)
          → (r >>= λ f. ok (g f m')) ≡ (r >>= λ f. ok (g f m))
      read (ok f) e = ap ok (e f refl)
      read (err x) e = refl
      read panic e = refl
      read stuck e = refl

module _ {F M P : Type 0} (c : Cases F M P) (l : CaseLaws c)
    (range : (S : Type 0) → Visitor P S → Option M → S → Outcome S) where
  open c use {name, all}

  -- With a `Range` that walks over the fields, the methods keep the contract.
  pub methods-IsMessage :
      ((S : Type 0) (f : Visitor P S) (m : M) (s : S)
        → range S f (some m) s ≡ walk (methods c range).get f (some m) (map name all) s)
      → IsMessage (methods c range)
  methods-IsMessage walks = record {
    range-walk = walks;
    has-get = λ n x.
        one_read (switch name all n) x c.has_at _ l.has-get_at
        ∙ sym (then_read (switch name all n) x c.get_at populated);
    clear-has = λ n x.
        twice (switch name all n) x (λ f m. ok (c.clear_at f m)) (λ f m. ok (c.has_at f m)) _
          λ f m. ap ok (l.clear-has_at f m);
    set-get = λ n v x.
        twice (switch name all n) x (λ f m. c.set_at f v m) (λ f m. ok (c.get_at f m)) _
          λ f m. l.set-get_at f v m;
    set_other = λ n k v m m' ne h.
        elsewhere name all n k (λ f. c.set_at f v m) c.get_at m m' ne h
          λ f f' d e. l.set_other_at f f' v m m' d e;
    clear_other = λ n k m m' ne h.
        elsewhere name all n k (λ f. ok (c.clear_at f m)) c.get_at m m' ne h
          λ f f' d e. ap (c.get_at f') (sym (cc e)) ∙ l.clear_other_at f f' m d;
    mutable-get = λ n x.
        again (switch name all n) (λ f. c.mutable_at f x) (λ f r. ok (c.get_at f r.0)) _
          (λ f. l.mutable-get_at f x);
    mutable-has = λ n x.
        again (switch name all n) (λ f. c.mutable_at f x) (λ f r. ok (c.has_at f r.0)) _
          (λ f. l.mutable-has_at f x);
    mutable_allocates = λ n m p h.
        let (f, leads, made) = >>=-eq-ok (switch name all n) (λ f. ok (c.new_at f)) h in
        let composite : c.new_at f ≡ message_value p = cc made in
        let (m', p', allocates) = l.mutable_allocates_at f m p composite in
        (m', p', ap (λ r. r >>= λ g. c.mutable_at g (some m)) leads ∙ allocates);
    new_field-set = λ n m.
        assigned (switch name all n) c.new_at (λ f v. c.set_at f v m) (λ f. c.get_at f m)
          λ f. l.new-set_at f m;
    set_unknown-get_unknown = λ u x. stored u x;
    set_unknown-get =
        λ u n x. unknown_kept (switch name all n) x (c.with_unknown u) c.get_at (l.unknown_other u);
  }
    where
      stored :
          (u : Option Bytes) (x : Option M)
          → ((deref x >>= λ m. ok (c.with_unknown u m)) >>= λ m. ok (c.unknown_of m))
            ≡ ((deref x >>= λ m. ok (c.with_unknown u m)) >>= λ m. ok u)
      stored u none = refl
      stored u (some m) = ap ok (l.unknown_lem u m)
