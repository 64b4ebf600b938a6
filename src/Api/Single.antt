-- ===== src/Api/Single.antt =====
-- The messages of api/ whose one field, of number 1, is the parameters: `GenesisState` of
-- genesis.pulsar.go and `QueryParamsResponse` of query.pulsar.go in api/bluechipchain/fixedmint. The
-- generated code of the two is the same but for the full name of the field, which is `params_name` here.
pub mod Reflection
pub mod Codec
pub mod Genesis
pub mod QueryResponse
use bluechip_chain_official.Prelude.{
  ℕ, ◌+◌, Bool, true, false, not, Option, none, some, List, [], ◌∷◌, Bytes, Outcome, ok, panic,
  wrong_wire_type, ◌>>=◌, ◌>>◌, fail_if, ◌==◌, if◌then◌else◌,
}
use bluechip_chain_official.Wire.Buffer.{Cursor}
use bluechip_chain_official.Wire.Message.{Handled, next, unknown}
use bluechip_chain_official.Api.Runtime.{Runtime}
use bluechip_chain_official.Api.Reflect.{
  Value, message_value, Visitor, deref, as_message, present, switch, visit,
}
use bluechip_chain_official.Api.Buffer.{
  append_unknown, unknown_size, put_unknown, filled, message_size, put_message, read_fields,
}
use bluechip_chain_official.Api.Params.{Params, zero_params}
use bluechip_chain_official.Api.Params as Nested
use bluechip_chain_official.Api.Nested.{allocated, read_params}

-- The struct, without the caches of its reflection.
pub record Single : Type 0 where
  pub params : Option Params
  pub unknown_fields : Option Bytes

unfoldable pub zero_single : Single
zero_single = record { params = none; unknown_fields = none }

unfoldable pub single_reset : Option Single → Outcome Single
single_reset x = do m ← deref x; ok zero_single

unfoldable pub single_get_params : Option Single → Option Params
single_get_params none = none
single_get_params (some m) = m.params

-- The case of the switches on `fd.FullName()`.
pub data Field : Type 0 where
  params_field : Field

abbrev pub all_fields : List Field
all_fields = params_field ∷ []

unfoldable pub has_at : Field → Single → Bool
has_at params_field m = present m.params

unfoldable pub clear_at : Field → Single → Single
clear_at params_field m = record m { params = none }

unfoldable pub get_at : Field → Single → Value Params
get_at params_field m = message_value m.params

unfoldable pub set_at : Field → Value Params → Single → Outcome Single
set_at params_field v m = do p ← as_message v; ok (record m { params = p })

-- The parameters are allocated where they are nil; the value is a reference to them.
unfoldable pub mutable_at : Field → Option Single → Outcome (Single × Value Params)
mutable_at params_field x = do
  m ← deref x
  let p : Option Params = some (allocated m.params)
  ok (record m { params = p }, message_value p)

unfoldable pub new_at : Field → Value Params
new_at params_field = message_value (some zero_params)

-- There is no oneof.
unfoldable pub single_which_oneof : Bytes → Option Single → Outcome (Option Field)
single_which_oneof n x = panic

unfoldable pub single_get_unknown : Option Single → Outcome (Option Bytes)
single_get_unknown x = do m ← deref x; ok m.unknown_fields

abbrev pub with_unknown : Option Bytes → Single → Single
with_unknown u m = record m { unknown_fields = u }

unfoldable pub single_set_unknown : Option Bytes → Option Single → Outcome Single
single_set_unknown u x = do m ← deref x; ok (with_unknown u m)

unfoldable pub single_is_valid : Option Single → Bool
single_is_valid none = false
single_is_valid (some m) = true

module _ (params_name : Bytes) where
  abbrev pub full_name : Field → Bytes
  full_name params_field = params_name

  abbrev pub field : Bytes → Outcome Field
  field n = switch full_name all_fields n

  unfoldable pub single_range : (S : Type 0) → Visitor Params S → Option Single → S → Outcome S
  single_range S f x s = do
    m ← deref x
    visit f (present m.params) params_name (message_value m.params) ok s

  unfoldable pub single_has : Bytes → Option Single → Outcome Bool
  single_has n x = do f ← field n; m ← deref x; ok (has_at f m)

  unfoldable pub single_clear : Bytes → Option Single → Outcome Single
  single_clear n x = do f ← field n; m ← deref x; ok (clear_at f m)

  unfoldable pub single_get : Bytes → Option Single → Outcome (Value Params)
  single_get n x = do f ← field n; m ← deref x; ok (get_at f m)

  unfoldable pub single_set : Bytes → Value Params → Option Single → Outcome Single
  single_set n v x = do f ← field n; m ← deref x; set_at f v m

  unfoldable pub single_mutable : Bytes → Option Single → Outcome (Single × Value Params)
  single_mutable n x = do f ← field n; mutable_at f x

  unfoldable pub single_new_field : Bytes → Outcome (Value Params)
  single_new_field n = do f ← field n; ok (new_at f)

module _ (r : Runtime) where
  unfoldable pub single_size : Option Single → ℕ
  single_size none = 0
  single_size (some m) =
      message_size r (Nested.size r) (Nested.marshal r) m.params + unknown_size m.unknown_fields

  -- From the last field to the first.
  unfoldable pub put_fields : Single → Cursor → Outcome Cursor
  put_fields m c = do
    c1 ← put_unknown m.unknown_fields c
    put_message r (Nested.size r) (Nested.marshal r) 0xa m.params c1

  unfoldable pub single_marshal : Option Single → Option Bytes → Outcome (Option Bytes)
  single_marshal none buf = ok buf
  single_marshal (some m) buf = filled (r.options_size single_size (some m)) (put_fields m) buf

  -- The switch on the field's number, with the wire type `t`.
  unfoldable pub handle_field : Bool → ℕ → ℕ → ℕ → Bytes → ℕ → Single → Outcome (Handled Single)
  handle_field discard field t l src i m =
      if field == 1
      then (do
        fail_if (not (t == 2)) (wrong_wire_type t 1)
        (p, i', rest) ← read_params r discard l src i m.params
        ok (next (record m { params = p }) i' rest))
      else ok unknown

abbrev pub keep_unknown : Bytes → Single → Single
keep_unknown bs m = with_unknown (append_unknown m.unknown_fields bs) m

unfoldable pub single_unmarshal : Runtime → Bool → Bytes → Option Single → Outcome (Option Single)
unfolding handle_field
single_unmarshal r discard src x = read_fields r (handle_field r discard) keep_unknown discard src x
