-- ===== src/Api/Update.antt =====
-- `MsgUpdateParams` of api/bluechipchain/fixedmint/tx.pulsar.go: the struct, its reflection, and its
-- `ProtoMethods`.
pub mod Reflection
pub mod Encode
pub mod Decode
use bluechip_chain_official.Prelude.{
  ℕ, ◌+◌, Bool, true, false, not, Option, none, some, List, [], ◌∷◌, Bytes, bytes, Outcome, ok,
  panic, wrong_wire_type, ◌>>=◌, ◌>>◌, fail_if, ◌==◌, if◌then◌else◌,
}
use bluechip_chain_official.Wire.Buffer.{Cursor}
use bluechip_chain_official.Wire.Read.{read_delimited}
use bluechip_chain_official.Wire.Message.{Handled, next, unknown}
use bluechip_chain_official.Api.Runtime.{Runtime}
use bluechip_chain_official.Api.Reflect.{
  Value, text_value, message_value, Visitor, deref, as_text, as_message, nonempty, present, switch,
  visit,
}
use bluechip_chain_official.Api.Buffer.{
  append_unknown, unknown_size, put_unknown, filled, text_size, put_text, message_size, put_message,
  read_fields,
}
use bluechip_chain_official.Api.Params.{Params, zero_params}
use bluechip_chain_official.Api.Params as Nested
use bluechip_chain_official.Api.Nested.{allocated, read_params}

-- The struct, without the caches of its reflection.
pub record MsgUpdateParams : Type 0 where
  pub authority : Bytes
  pub params : Option Params
  pub unknown_fields : Option Bytes

-- `MsgUpdateParams{}`
unfoldable pub zero_msg : MsgUpdateParams
zero_msg = record { authority = []; params = none; unknown_fields = none }

-- `*x = MsgUpdateParams{}`
unfoldable pub reset : Option MsgUpdateParams → Outcome MsgUpdateParams
reset x = do m ← deref x; ok zero_msg

unfoldable pub get_authority : Option MsgUpdateParams → Bytes
get_authority none = []
get_authority (some m) = m.authority

unfoldable pub get_params : Option MsgUpdateParams → Option Params
get_params none = none
get_params (some m) = m.params

-- The cases of the switches on `fd.FullName()`.
pub data Field : Type 0 where
  authority_field params_field : Field

unfoldable pub full_name : Field → Bytes
full_name authority_field = bytes "bluechipchain.fixedmint.MsgUpdateParams.authority"
full_name params_field = bytes "bluechipchain.fixedmint.MsgUpdateParams.params"

abbrev pub all_fields : List Field
all_fields = authority_field ∷ params_field ∷ []

abbrev pub field : Bytes → Outcome Field
field n = switch full_name all_fields n

unfoldable pub range : (S : Type 0) → Visitor Params S → Option MsgUpdateParams → S → Outcome S
unfolding full_name
range S f x s = do
  m ← deref x
  visit f (nonempty m.authority) (full_name authority_field) (text_value m.authority)
      (visit f (present m.params) (full_name params_field) (message_value m.params) ok) s

unfoldable pub has_at : Field → MsgUpdateParams → Bool
has_at authority_field m = nonempty m.authority
has_at params_field m = present m.params

unfoldable pub has : Bytes → Option MsgUpdateParams → Outcome Bool
has n x = do f ← field n; m ← deref x; ok (has_at f m)

unfoldable pub clear_at : Field → MsgUpdateParams → MsgUpdateParams
clear_at authority_field m = record m { authority = [] }
clear_at params_field m = record m { params = none }

unfoldable pub clear : Bytes → Option MsgUpdateParams → Outcome MsgUpdateParams
clear n x = do f ← field n; m ← deref x; ok (clear_at f m)

unfoldable pub get_at : Field → MsgUpdateParams → Value Params
get_at authority_field m = text_value m.authority
get_at params_field m = message_value m.params

unfoldable pub get : Bytes → Option MsgUpdateParams → Outcome (Value Params)
get n x = do f ← field n; m ← deref x; ok (get_at f m)

unfoldable pub set_at : Field → Value Params → MsgUpdateParams → Outcome MsgUpdateParams
set_at authority_field v m = do s ← as_text v; ok (record m { authority = s })
set_at params_field v m = do p ← as_message v; ok (record m { params = p })

unfoldable pub set : Bytes → Value Params → Option MsgUpdateParams → Outcome MsgUpdateParams
set n v x = do f ← field n; m ← deref x; set_at f v m

-- The parameters are allocated where they are nil; the value is a reference to them.
unfoldable pub mutable_at :
    Field → Option MsgUpdateParams → Outcome (MsgUpdateParams × Value Params)
mutable_at authority_field x = panic
mutable_at params_field x = do
  m ← deref x
  let p : Option Params = some (allocated m.params)
  ok (record m { params = p }, message_value p)

unfoldable pub mutable : Bytes → Option MsgUpdateParams → Outcome (MsgUpdateParams × Value Params)
mutable n x = do f ← field n; mutable_at f x

unfoldable pub new_at : Field → Value Params
new_at authority_field = text_value []
new_at params_field = message_value (some zero_params)

unfoldable pub new_field : Bytes → Outcome (Value Params)
new_field n = do f ← field n; ok (new_at f)

-- There is no oneof.
unfoldable pub which_oneof : Bytes → Option MsgUpdateParams → Outcome (Option Field)
which_oneof n x = panic

unfoldable pub get_unknown : Option MsgUpdateParams → Outcome (Option Bytes)
get_unknown x = do m ← deref x; ok m.unknown_fields

abbrev pub with_unknown : Option Bytes → MsgUpdateParams → MsgUpdateParams
with_unknown u m = record m { unknown_fields = u }

unfoldable pub set_unknown : Option Bytes → Option MsgUpdateParams → Outcome MsgUpdateParams
set_unknown u x = do m ← deref x; ok (with_unknown u m)

unfoldable pub is_valid : Option MsgUpdateParams → Bool
is_valid none = false
is_valid (some m) = true

module _ (r : Runtime) where
  unfoldable pub size : Option MsgUpdateParams → ℕ
  size none = 0
  size (some m) =
      text_size r m.authority
      + message_size r (Nested.size r) (Nested.marshal r) m.params
      + unknown_size m.unknown_fields

  -- From the last field to the first.
  unfoldable pub put_fields : MsgUpdateParams → Cursor → Outcome Cursor
  put_fields m c = do
    c1 ← put_unknown m.unknown_fields c
    c2 ← put_message r (Nested.size r) (Nested.marshal r) 0x12 m.params c1
    put_text r 0xa m.authority c2

  unfoldable pub marshal : Option MsgUpdateParams → Option Bytes → Outcome (Option Bytes)
  marshal none buf = ok buf
  marshal (some m) buf = filled (r.options_size size (some m)) (put_fields m) buf

  -- The switch on the field's number, with the wire type `t`.
  unfoldable pub handle_field :
      Bool → ℕ → ℕ → ℕ → Bytes → ℕ → MsgUpdateParams → Outcome (Handled MsgUpdateParams)
  handle_field discard field t l src i m =
      if field == 1
      then (do
        fail_if (not (t == 2)) (wrong_wire_type t 1)
        (s, i', rest) ← read_delimited l src i
        ok (next (record m { authority = s }) i' rest))
      else if field == 2
      then (do
        fail_if (not (t == 2)) (wrong_wire_type t 2)
        (p, i', rest) ← read_params r discard l src i m.params
        ok (next (record m { params = p }) i' rest))
      else ok unknown

abbrev pub keep_unknown : Bytes → MsgUpdateParams → MsgUpdateParams
keep_unknown bs m = with_unknown (append_unknown m.unknown_fields bs) m

unfoldable pub unmarshal :
    Runtime → Bool → Bytes → Option MsgUpdateParams → Outcome (Option MsgUpdateParams)
unfolding handle_field
unmarshal r discard src x = read_fields r (handle_field r discard) keep_unknown discard src x
