-- ===== src/Api/Params/Reflection.antt =====
-- The reflection of `Params` keeps the contract of protoreflect.Message.
use bluechip_chain_official.Prelude.{◌≡◌, ◌≢◌, refl, arith, map, ok, some, ◌>>=◌, Option}
use bluechip_chain_official.Api.Reflect.{message_value, as_text, as_bool, Value, Visitor}
use bluechip_chain_official.Api.Reflect.Contract.{Methods, IsMessage, walk}
use bluechip_chain_official.Api.Reflect.Fields.{
  stored_elsewhere, Cases, CaseLaws, methods-IsMessage,
}
use bluechip_chain_official.Api.Params.{
  Params, Field, denom_field, amount_field, enabled_field, full_name, all_fields, range, has_at,
  has, clear_at, clear, get_at, get, set_at, set, mutable_at, mutable, new_at, new_field,
  get_unknown, with_unknown, set_unknown,
}

abbrev pub reflection : Methods Params Params
reflection = record {
  names = map full_name all_fields;
  range = range;
  has = has;
  clear = clear;
  get = get;
  set = set;
  mutable = mutable;
  new_field = new_field;
  get_unknown = get_unknown;
  set_unknown = set_unknown;
}

abbrev cases : Cases Field Params Params
cases = record {
  name = full_name;
  all = all_fields;
  has_at = has_at;
  clear_at = clear_at;
  get_at = get_at;
  set_at = set_at;
  mutable_at = mutable_at;
  new_at = new_at;
  unknown_of = λ m. m.unknown_fields;
  with_unknown = with_unknown;
}

set-get :
    (f : Field) (v : Value Params) (m : Params)
    → (set_at f v m >>= λ m'. ok (get_at f m')) ≡ (set_at f v m >>= λ m'. ok v)
unfolding get_at set_at
set-get denom_field v m = ground arith
set-get amount_field v m = ground arith
set-get enabled_field v m = ground arith

set_other :
    (f g : Field) (v : Value Params) (m m' : Params)
    → f ≢ g
    → set_at f v m ≡ ok m'
    → get_at g m' ≡ get_at g m
unfolding get_at set_at
set_other denom_field denom_field v m m' ne h = absurd (ne refl)
set_other denom_field g v m m' ne h =
    stored_elsewhere (as_text v) (λ s. record m { mint_denom = s }) (get_at g) m m'
      (λ s. ground arith) h
set_other amount_field amount_field v m m' ne h = absurd (ne refl)
set_other amount_field g v m m' ne h =
    stored_elsewhere (as_text v) (λ s. record m { mint_amount = s }) (get_at g) m m'
      (λ s. ground arith) h
set_other enabled_field enabled_field v m m' ne h = absurd (ne refl)
set_other enabled_field g v m m' ne h =
    stored_elsewhere (as_bool v) (λ b. record m { mint_enabled = b }) (get_at g) m m'
      (λ b. ground arith) h

mutable_allocates :
    (f : Field) (m : Params) (p : Option Params)
    → new_at f ≡ message_value p
    → (m' : Params) × (p' : Params) × (mutable_at f (some m) ≡ ok (m', message_value (some p')))
unfolding new_at mutable_at
mutable_allocates denom_field m p h = absurd (cc h)
mutable_allocates amount_field m p h = absurd (cc h)
mutable_allocates enabled_field m p h = absurd (cc h)

laws : CaseLaws cases
unfolding has_at clear_at get_at set_at mutable_at new_at
laws = record {
  has-get_at = λ f m. ground arith;
  clear-has_at = λ f m. ground arith;
  set-get_at = set-get;
  set_other_at = set_other;
  clear_other_at = λ f g m ne. ground arith;
  mutable-get_at = λ f x. ground arith;
  mutable-has_at = λ f x. ground arith;
  mutable_allocates_at = mutable_allocates;
  new-set_at = λ f m. ground arith;
  unknown_lem = λ u m. refl;
  unknown_other = λ u f m. ground arith;
}

range-walk :
    (S : Type 0) (f : Visitor Params S) (m : Params) (s : S)
    → range S f (some m) s ≡ walk get f (some m) (map full_name all_fields) s
unfolding range full_name get get_at
range-walk S f m s = refl

-- The methods of `Params` keep the laws of `IsMessage`.
pub params-IsMessage : IsMessage reflection
unfolding has clear get set mutable new_field get_unknown set_unknown
params-IsMessage = methods-IsMessage cases laws range range-walk
