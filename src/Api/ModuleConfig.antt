-- ===== src/Api/ModuleConfig.antt =====
-- `Module` of api/bluechipchain/fixedmint/module/module.pulsar.go, the configuration of the module: the
-- struct, its reflection, and its `ProtoMethods`.
pub mod Reflection
pub mod Codec
use bluechip_chain_official.Prelude.{
  ℕ, ◌+◌, Bool, true, false, not, Option, none, some, List, [], ◌∷◌, Bytes, bytes, Outcome, ok,
  panic, wrong_wire_type, ◌>>=◌, ◌>>◌, fail_if, ◌==◌, if◌then◌else◌,
}
use bluechip_chain_official.Wire.Buffer.{Cursor}
use bluechip_chain_official.Wire.Read.{read_delimited}
use bluechip_chain_official.Wire.Message.{Handled, next, unknown}
use bluechip_chain_official.Api.Runtime.{Runtime}
use bluechip_chain_official.Api.Reflect.{
  Value, text_value, Visitor, deref, as_text, nonempty, switch, visit,
}
use bluechip_chain_official.Api.Buffer.{
  append_unknown, unknown_size, put_unknown, filled, text_size, put_text, read_fields,
}

-- The struct, without the caches of its reflection.
pub record Module : Type 0 where
  pub authority : Bytes
  pub unknown_fields : Option Bytes

-- `Module{}`
unfoldable pub zero_module : Module
zero_module = record { authority = []; unknown_fields = none }

-- `*x = Module{}`
unfoldable pub reset : Option Module → Outcome Module
reset x = do m ← deref x; ok zero_module

unfoldable pub get_authority : Option Module → Bytes
get_authority none = []
get_authority (some m) = m.authority

-- The cases of the switches on `fd.FullName()`.
pub data Field : Type 0 where
  authority_field : Field

unfoldable pub full_name : Field → Bytes
full_name authority_field = bytes "bluechipchain.fixedmint.module.Module.authority"

abbrev pub all_fields : List Field
all_fields = authority_field ∷ []

abbrev pub field : Bytes → Outcome Field
field n = switch full_name all_fields n

unfoldable pub range : (S : Type 0) → Visitor Module S → Option Module → S → Outcome S
unfolding full_name
range S f x s = do
  m ← deref x
  visit f (nonempty m.authority) (full_name authority_field) (text_value m.authority) ok s

unfoldable pub has_at : Field → Module → Bool
has_at authority_field m = nonempty m.authority

unfoldable pub has : Bytes → Option Module → Outcome Bool
has n x = do f ← field n; m ← deref x; ok (has_at f m)

unfoldable pub clear_at : Field → Module → Module
clear_at authority_field m = record m { authority = [] }

unfoldable pub clear : Bytes → Option Module → Outcome Module
clear n x = do f ← field n; m ← deref x; ok (clear_at f m)

unfoldable pub get_at : Field → Module → Value Module
get_at authority_field m = text_value m.authority

unfoldable pub get : Bytes → Option Module → Outcome (Value Module)
get n x = do f ← field n; m ← deref x; ok (get_at f m)

unfoldable pub set_at : Field → Value Module → Module → Outcome Module
set_at authority_field v m = do s ← as_text v; ok (record m { authority = s })

unfoldable pub set : Bytes → Value Module → Option Module → Outcome Module
set n v x = do f ← field n; m ← deref x; set_at f v m

-- The field is not composite.
unfoldable pub mutable_at : Field → Option Module → Outcome (Module × Value Module)
mutable_at authority_field x = panic

unfoldable pub mutable : Bytes → Option Module → Outcome (Module × Value Module)
mutable n x = do f ← field n; mutable_at f x

unfoldable pub new_at : Field → Value Module
new_at authority_field = text_value []

unfoldable pub new_field : Bytes → Outcome (Value Module)
new_field n = do f ← field n; ok (new_at f)

-- There is no oneof.
unfoldable pub which_oneof : Bytes → Option Module → Outcome (Option Field)
which_oneof n x = panic

unfoldable pub get_unknown : Option Module → Outcome (Option Bytes)
get_unknown x = do m ← deref x; ok m.unknown_fields

abbrev pub with_unknown : Option Bytes → Module → Module
with_unknown u m = record m { unknown_fields = u }

unfoldable pub set_unknown : Option Bytes → Option Module → Outcome Module
set_unknown u x = do m ← deref x; ok (with_unknown u m)

unfoldable pub is_valid : Option Module → Bool
is_valid none = false
is_valid (some m) = true

module _ (r : Runtime) where
  unfoldable pub size : Option Module → ℕ
  size none = 0
  size (some m) = text_size r m.authority + unknown_size m.unknown_fields

  -- From the last field to the first.
  unfoldable pub put_fields : Module → Cursor → Outcome Cursor
  put_fields m c = do c1 ← put_unknown m.unknown_fields c; put_text r 0xa m.authority c1

  unfoldable pub marshal : Option Module → Option Bytes → Outcome (Option Bytes)
  marshal none buf = ok buf
  marshal (some m) buf = filled (r.options_size size (some m)) (put_fields m) buf

-- The switch on the field's number, with the wire type `t`.
unfoldable pub handle_field : ℕ → ℕ → ℕ → Bytes → ℕ → Module → Outcome (Handled Module)
handle_field field t l src i m =
    if field == 1
    then (do
      fail_if (not (t == 2)) (wrong_wire_type t 1)
      (s, i', rest) ← read_delimited l src i
      ok (next (record m { authority = s }) i' rest))
    else ok unknown

abbrev pub keep_unknown : Bytes → Module → Module
keep_unknown bs m = with_unknown (append_unknown m.unknown_fields bs) m

unfoldable pub unmarshal : Runtime → Bool → Bytes → Option Module → Outcome (Option Module)
unfolding handle_field
unmarshal r discard src x = read_fields r handle_field keep_unknown discard src x
