-- ===== src/Api/Empty.antt =====
-- The messages of api/ without a field: `MsgUpdateParamsResponse` of tx.pulsar.go and
-- `QueryParamsRequest` of query.pulsar.go in api/bluechipchain/fixedmint. The generated code of the two
-- is the same but for names.
pub mod Laws
pub mod UpdateResponse
pub mod QueryRequest
use bluechip_chain_official.Prelude.{
  ℕ, Bool, true, false, Option, none, some, Bytes, Outcome, ok, panic, ◌>>=◌,
}
use bluechip_chain_official.Wire.Buffer.{Cursor}
use bluechip_chain_official.Wire.Message.{Handled, unknown}
use bluechip_chain_official.Api.Runtime.{Runtime}
use bluechip_chain_official.Api.Reflect.{Value, Visitor, deref}
use bluechip_chain_official.Api.Buffer.{
  append_unknown, unknown_size, put_unknown, filled, read_fields,
}

-- The struct, without the caches of its reflection.
pub record Empty : Type 0 where
  pub unknown_fields : Option Bytes

unfoldable pub zero_empty : Empty
zero_empty = record { unknown_fields = none }

unfoldable pub empty_reset : Option Empty → Outcome Empty
empty_reset x = do m ← deref x; ok zero_empty

-- `Range` does not read the message.
unfoldable pub empty_range : (S : Type 0) → Visitor Empty S → Option Empty → S → Outcome S
empty_range S f x s = ok s

-- The switches have no case but the default.
unfoldable pub empty_has : Bytes → Option Empty → Outcome Bool
empty_has n x = panic

unfoldable pub empty_clear : Bytes → Option Empty → Outcome Empty
empty_clear n x = panic

unfoldable pub empty_get : Bytes → Option Empty → Outcome (Value Empty)
empty_get n x = panic

unfoldable pub empty_set : Bytes → Value Empty → Option Empty → Outcome Empty
empty_set n v x = panic

unfoldable pub empty_mutable : Bytes → Option Empty → Outcome (Empty × Value Empty)
empty_mutable n x = panic

unfoldable pub empty_new_field : Bytes → Outcome (Value Empty)
empty_new_field n = panic

unfoldable pub empty_which_oneof : Bytes → Option Empty → Outcome (Option Bytes)
empty_which_oneof n x = panic

unfoldable pub empty_get_unknown : Option Empty → Outcome (Option Bytes)
empty_get_unknown x = do m ← deref x; ok m.unknown_fields

abbrev pub with_unknown : Option Bytes → Empty → Empty
with_unknown u m = record { unknown_fields = u }

unfoldable pub empty_set_unknown : Option Bytes → Option Empty → Outcome Empty
empty_set_unknown u x = do m ← deref x; ok (with_unknown u m)

unfoldable pub empty_is_valid : Option Empty → Bool
empty_is_valid none = false
empty_is_valid (some m) = true

module _ (r : Runtime) where
  unfoldable pub empty_size : Option Empty → ℕ
  empty_size none = 0
  empty_size (some m) = unknown_size m.unknown_fields

  unfoldable pub empty_marshal : Option Empty → Option Bytes → Outcome (Option Bytes)
  empty_marshal none buf = ok buf
  empty_marshal (some m) buf =
      filled (r.options_size empty_size (some m)) (put_unknown m.unknown_fields) buf

-- Every field is unknown.
unfoldable pub handle_field : ℕ → ℕ → ℕ → Bytes → ℕ → Empty → Outcome (Handled Empty)
handle_field field t l src i m = ok unknown

abbrev pub keep_unknown : Bytes → Empty → Empty
keep_unknown bs m = with_unknown (append_unknown m.unknown_fields bs) m

unfoldable pub empty_unmarshal : Runtime → Bool → Bytes → Option Empty → Outcome (Option Empty)
unfolding handle_field
empty_unmarshal r discard src x = read_fields r handle_field keep_unknown discard src x
