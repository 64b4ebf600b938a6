-- ===== src/Api/Single/Reflection.antt =====
-- The reflection of a message with the parameters alone keeps the contract of protoreflect.Message.
use bluechip_chain_official.Prelude.{
  ◌≡◌, ◌≢◌, refl, arith, map, Bytes, bytes_eq_refl, ok, some, ◌>>=◌, Option,
}
use bluechip_chain_official.Api.Reflect.{message_value, Value, Visitor}
use bluechip_chain_official.Api.Reflect.Contract.{Methods, IsMessage, walk}
use bluechip_chain_official.Api.Reflect.Fields.{Cases, CaseLaws, methods-IsMessage}
use bluechip_chain_official.Api.Params.{Params}
use bluechip_chain_official.Api.Nested.{allocated}
use bluechip_chain_official.Api.Single.{
  Single, Field, params_field, full_name, all_fields, single_range, has_at, single_has, clear_at,
  single_clear, get_at, single_get, set_at, single_set, mutable_at, single_mutable, new_at,
  single_new_field, single_get_unknown, with_unknown, single_set_unknown,
}

module _ (params_name : Bytes) where
  abbrev pub single_reflection : Methods Single Params
  single_reflection = record {
    names = map (full_name params_name) all_fields;
    range = single_range params_name;
    has = single_has params_name;
    clear = single_clear params_name;
    get = single_get params_name;
    set = single_set params_name;
    mutable = single_mutable params_name;
    new_field = single_new_field params_name;
    get_unknown = single_get_unknown;
    set_unknown = single_set_unknown;
  }

  abbrev cases : Cases Field Single Params
  cases = record {
    name = full_name params_name;
    all = all_fields;
    has_at = has_at;
    clear_at = clear_at;
    get_at = get_at;
    set_at = set_at;
    mutable_at = mutable_at;
    new_at = new_at;
    unknown_of = λ m. m.unknown_fields;
    with_unknown = with_unknown;
  }

  set-get :
      (f : Field) (v : Value Params) (m : Single)
      → (set_at f v m >>= λ m'. ok (get_at f m')) ≡ (set_at f v m >>= λ m'. ok v)
  unfolding get_at set_at
  set-get params_field v m = ground arith

  set_other :
      (f g : Field) (v : Value Params) (m m' : Single)
      → f ≢ g
      → set_at f v m ≡ ok m'
      → get_at g m' ≡ get_at g m
  set_other params_field params_field v m m' ne h = absurd (ne refl)

  mutable_allocates :
      (f : Field) (m : Single) (p : Option Params)
      → new_at f ≡ message_value p
      → (m' : Single) × (p' : Params) × (mutable_at f (some m) ≡ ok (m', message_value (some p')))
  unfolding new_at mutable_at
  mutable_allocates params_field m p h =
      (record m { params = some (allocated m.params) }, allocated m.params, refl)

  laws : CaseLaws cases
  unfolding has_at clear_at get_at set_at mutable_at new_at
  laws = record {
    has-get_at = λ f m. ground arith;
    clear-has_at = λ f m. ground arith;
    set-get_at = set-get;
    set_other_at = set_other;
    clear_other_at = λ f g m ne. ground arith;
    mutable-get_at = λ f x. ground arith;
    mutable-has_at = λ f x. ground arith;
    mutable_allocates_at = mutable_allocates;
    new-set_at = λ f m. ground arith;
    unknown_lem = λ u m. refl;
    unknown_other = λ u f m. ground arith;
  }

  -- `Range` visits the field where the full name leads to it.
  single_range-walk :
      (S : Type 0) (f : Visitor Params S) (m : Single) (s : S)
      → single_range params_name S f (some m) s
        ≡ walk (single_get params_name) f (some m) (map (full_name params_name) all_fields) s
  unfolding single_range single_get get_at
  single_range-walk S f m s = rw (bytes_eq_refl params_name)

  pub single_reflection-IsMessage : IsMessage single_reflection
  unfolding single_has single_clear single_get single_set single_mutable single_new_field
      single_get_unknown single_set_unknown
  single_reflection-IsMessage =
      methods-IsMessage cases laws (single_range params_name) single_range-walk
