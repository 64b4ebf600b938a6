-- ===== src/Api/ModuleConfig/Reflection.antt =====
-- The reflection of `Module` keeps the contract of protoreflect.Message.
use bluechip_chain_official.Prelude.{◌≡◌, ◌≢◌, refl, arith, map, ok, some, ◌>>=◌, Option}
use bluechip_chain_official.Api.Reflect.{message_value, Value, Visitor}
use bluechip_chain_official.Api.Reflect.Contract.{Methods, IsMessage, walk}
use bluechip_chain_official.Api.Reflect.Fields.{Cases, CaseLaws, methods-IsMessage}
use bluechip_chain_official.Api.ModuleConfig.{
  Module, Field, authority_field, full_name, all_fields, range, has_at, has, clear_at, clear,
  get_at, get, set_at, set, mutable_at, mutable, new_at, new_field, get_unknown, with_unknown,
  set_unknown,
}

abbrev pub reflection : Methods Module Module
reflection = record {
  names = map full_name all_fields;
  range = range;
  has = has;
  clear = clear;
  get = get;
  set = set;
  mutable = mutable;
  new_field = new_field;
  get_unknown = get_unknown;
  set_unknown = set_unknown;
}

abbrev cases : Cases Field Module Module
cases = record {
  name = full_name;
  all = all_fields;
  has_at = has_at;
  clear_at = clear_at;
  get_at = get_at;
  set_at = set_at;
  mutable_at = mutable_at;
  new_at = new_at;
  unknown_of = λ m. m.unknown_fields;
  with_unknown = with_unknown;
}

set-get :
    (f : Field) (v : Value Module) (m : Module)
    → (set_at f v m >>= λ m'. ok (get_at f m')) ≡ (set_at f v m >>= λ m'. ok v)
unfolding get_at set_at
set-get authority_field v m = ground arith

set_other :
    (f g : Field) (v : Value Module) (m m' : Module)
    → f ≢ g
    → set_at f v m ≡ ok m'
    → get_at g m' ≡ get_at g m
unfolding get_at set_at
set_other authority_field authority_field v m m' ne h = absurd (ne refl)

mutable_allocates :
    (f : Field) (m : Module) (p : Option Module)
    → new_at f ≡ message_value p
    → (m' : Module) × (p' : Module) × (mutable_at f (some m) ≡ ok (m', message_value (some p')))
unfolding new_at mutable_at
mutable_allocates authority_field m p h = absurd (cc h)

laws : CaseLaws cases
unfolding has_at clear_at get_at set_at mutable_at new_at
laws = record {
  has-get_at = λ f m. ground arith;
  clear-has_at = λ f m. ground arith;
  set-get_at = set-get;
  set_other_at = set_other;
  clear_other_at = λ f g m ne. ground arith;
  mutable-get_at = λ f x. ground arith;
  mutable-has_at = λ f x. ground arith;
  mutable_allocates_at = mutable_allocates;
  new-set_at = λ f m. ground arith;
  unknown_lem = λ u m. refl;
  unknown_other = λ u f m. ground arith;
}

range-walk :
    (S : Type 0) (f : Visitor Module S) (m : Module) (s : S)
    → range S f (some m) s ≡ walk get f (some m) (map full_name all_fields) s
unfolding range full_name get get_at
range-walk S f m s = refl

-- The methods of `Module` keep the laws of `IsMessage`.
pub module-IsMessage : IsMessage reflection
unfolding has clear get set mutable new_field get_unknown set_unknown
module-IsMessage = methods-IsMessage cases laws range range-walk
