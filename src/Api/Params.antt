-- ===== src/Api/Params.antt =====
-- `Params` of api/bluechipchain/fixedmint/params.pulsar.go: the struct, its reflection, and its
-- `ProtoMethods`.
pub mod Reflection
pub mod Encode
pub mod Decode
pub mod Interop
use bluechip_chain_official.Prelude.{
  ℕ, ◌+◌, Bool, true, false, not, Option, none, some, List, [], ◌∷◌, Bytes, bytes, Outcome, ok,
  panic, wrong_wire_type, ◌>>=◌, ◌>>◌, fail_if, ◌==◌, if◌then◌else◌,
}
use bluechip_chain_official.Wire.Buffer.{Cursor, put_byte}
use bluechip_chain_official.Wire.Read.{read_varint, read_delimited}
use bluechip_chain_official.Wire.Message.{Handled, next, unknown}
use bluechip_chain_official.Api.Runtime.{Runtime}
use bluechip_chain_official.Api.Reflect.{
  Value, text_value, bool_value, Visitor, deref, as_text, as_bool, nonempty, switch, visit,
}
use bluechip_chain_official.Api.Buffer.{
  append_unknown, unknown_size, put_unknown, filled, text_size, put_text, read_fields,
}

-- The struct, without the caches of its reflection.
pub record Params : Type 0 where
  pub mint_denom : Bytes
  pub mint_amount : Bytes
  pub mint_enabled : Bool
  pub unknown_fields : Option Bytes

-- `Params{}`
unfoldable pub zero_params : Params
zero_params = record {
  mint_denom = [];
  mint_amount = [];
  mint_enabled = false;
  unknown_fields = none;
}

-- `*x = Params{}`
unfoldable pub reset : Option Params → Outcome Params
reset x = do m ← deref x; ok zero_params

unfoldable pub get_mint_denom : Option Params → Bytes
get_mint_denom none = []
get_mint_denom (some m) = m.mint_denom

unfoldable pub get_mint_amount : Option Params → Bytes
get_mint_amount none = []
get_mint_amount (some m) = m.mint_amount

unfoldable pub get_mint_enabled : Option Params → Bool
get_mint_enabled none = false
get_mint_enabled (some m) = m.mint_enabled

-- The cases of the switches on `fd.FullName()`.
pub data Field : Type 0 where
  denom_field amount_field enabled_field : Field

unfoldable pub full_name : Field → Bytes
full_name denom_field = bytes "bluechipchain.fixedmint.Params.mint_denom"
full_name amount_field = bytes "bluechipchain.fixedmint.Params.mint_amount"
full_name enabled_field = bytes "bluechipchain.fixedmint.Params.mint_enabled"

abbrev pub all_fields : List Field
all_fields = denom_field ∷ amount_field ∷ enabled_field ∷ []

abbrev pub field : Bytes → Outcome Field
field n = switch full_name all_fields n

unfoldable pub range : (S : Type 0) → Visitor Params S → Option Params → S → Outcome S
unfolding full_name
range S f x s = do
  m ← deref x
  visit f (nonempty m.mint_denom) (full_name denom_field) (text_value m.mint_denom)
      (visit f (nonempty m.mint_amount) (full_name amount_field) (text_value m.mint_amount)
        (visit f m.mint_enabled (full_name enabled_field) (bool_value m.mint_enabled) ok))
      s

unfoldable pub has_at : Field → Params → Bool
has_at denom_field m = nonempty m.mint_denom
has_at amount_field m = nonempty m.mint_amount
has_at enabled_field m = m.mint_enabled

unfoldable pub has : Bytes → Option Params → Outcome Bool
has n x = do f ← field n; m ← deref x; ok (has_at f m)

unfoldable pub clear_at : Field → Params → Params
clear_at denom_field m = record m { mint_denom = [] }
clear_at amount_field m = record m { mint_amount = [] }
clear_at enabled_field m = record m { mint_enabled = false }

unfoldable pub clear : Bytes → Option Params → Outcome Params
clear n x = do f ← field n; m ← deref x; ok (clear_at f m)

unfoldable pub get_at : Field → Params → Value Params
get_at denom_field m = text_value m.mint_denom
get_at amount_field m = text_value m.mint_amount
get_at enabled_field m = bool_value m.mint_enabled

unfoldable pub get : Bytes → Option Params → Outcome (Value Params)
get n x = do f ← field n; m ← deref x; ok (get_at f m)

unfoldable pub set_at : Field → Value Params → Params → Outcome Params
set_at denom_field v m = do s ← as_text v; ok (record m { mint_denom = s })
set_at amount_field v m = do s ← as_text v; ok (record m { mint_amount = s })
set_at enabled_field v m = do b ← as_bool v; ok (record m { mint_enabled = b })

unfoldable pub set : Bytes → Value Params → Option Params → Outcome Params
set n v x = do f ← field n; m ← deref x; set_at f v m

-- No field is composite.
unfoldable pub mutable_at : Field → Option Params → Outcome (Params × Value Params)
mutable_at denom_field x = panic
mutable_at amount_field x = panic
mutable_at enabled_field x = panic

unfoldable pub mutable : Bytes → Option Params → Outcome (Params × Value Params)
mutable n x = do f ← field n; mutable_at f x

unfoldable pub new_at : Field → Value Params
new_at denom_field = text_value []
new_at amount_field = text_value []
new_at enabled_field = bool_value false

unfoldable pub new_field : Bytes → Outcome (Value Params)
new_field n = do f ← field n; ok (new_at f)

-- There is no oneof.
unfoldable pub which_oneof : Bytes → Option Params → Outcome (Option Field)
which_oneof n x = panic

unfoldable pub get_unknown : Option Params → Outcome (Option Bytes)
get_unknown x = do m ← deref x; ok m.unknown_fields

abbrev pub with_unknown : Option Bytes → Params → Params
with_unknown u m = record m { unknown_fields = u }

unfoldable pub set_unknown : Option Bytes → Option Params → Outcome Params
set_unknown u x = do m ← deref x; ok (with_unknown u m)

unfoldable pub is_valid : Option Params → Bool
is_valid none = false
is_valid (some m) = true

-- The third field, where it is true.
unfoldable pub put_enabled : Bool → Cursor → Outcome Cursor
put_enabled b c = if b then (do c' ← put_byte (if b then 1 else 0) c; put_byte 0x18 c') else ok c

module _ (r : Runtime) where
  unfoldable pub size : Option Params → ℕ
  size none = 0
  size (some m) =
      text_size r m.mint_denom
      + text_size r m.mint_amount
      + (if m.mint_enabled then 2 else 0)
      + unknown_size m.unknown_fields

  -- From the last field to the first.
  unfoldable pub put_fields : Params → Cursor → Outcome Cursor
  put_fields m c = do
    c1 ← put_unknown m.unknown_fields c
    c2 ← put_enabled m.mint_enabled c1
    c3 ← put_text r 0x12 m.mint_amount c2
    put_text r 0xa m.mint_denom c3

  unfoldable pub marshal : Option Params → Option Bytes → Outcome (Option Bytes)
  marshal none buf = ok buf
  marshal (some m) buf = filled (r.options_size size (some m)) (put_fields m) buf

-- The switch on the field's number, with the wire type `t`.
unfoldable pub handle_field : ℕ → ℕ → ℕ → Bytes → ℕ → Params → Outcome (Handled Params)
handle_field field t l src i m =
    if field == 1
    then (do
      fail_if (not (t == 2)) (wrong_wire_type t 1)
      (s, i', rest) ← read_delimited l src i
      ok (next (record m { mint_denom = s }) i' rest))
    else if field == 2
    then (do
      fail_if (not (t == 2)) (wrong_wire_type t 2)
      (s, i', rest) ← read_delimited l src i
      ok (next (record m { mint_amount = s }) i' rest))
    else if field == 3
    then (do
      fail_if (not (t == 0)) (wrong_wire_type t 3)
      (v, i', rest) ← read_varint src i
      ok (next (record m { mint_enabled = not (v == 0) }) i' rest))
    else ok unknown

abbrev pub keep_unknown : Bytes → Params → Params
keep_unknown bs m = with_unknown (append_unknown m.unknown_fields bs) m

unfoldable pub unmarshal : Runtime → Bool → Bytes → Option Params → Outcome (Option Params)
unfolding handle_field
unmarshal r discard src x = read_fields r handle_field keep_unknown discard src x
