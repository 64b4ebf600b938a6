-- ===== src/Api/Empty/QueryRequest.antt =====
-- `QueryParamsRequest` of api/bluechipchain/fixedmint/query.pulsar.go.
use bluechip_chain_official.Prelude.{
  ℕ, ◌^◌, ◌<◌, ◌≡◌, Bool, List, Option, none, some, Bytes, [], Outcome, ok, ◌>>=◌, length, Yields,
}
use bluechip_chain_official.Api.Runtime.{Runtime, RuntimeLaws, contents}
use bluechip_chain_official.Api.Reflect.{Value, Visitor}
use bluechip_chain_official.Api.Reflect.Contract.{Methods, IsMessage}
use bluechip_chain_official.Api.Buffer.Reads.{WireField, fields_bytes, AreForeign, kept}
use bluechip_chain_official.Api.Empty.{
  Empty, zero_empty, empty_reset, empty_range, empty_has, empty_clear, empty_get, empty_set,
  empty_mutable, empty_new_field, empty_which_oneof, empty_get_unknown, empty_set_unknown,
  empty_is_valid, empty_size, empty_marshal, handle_field, empty_unmarshal,
}
use bluechip_chain_official.Api.Empty.Laws.{
  empty_reflection-IsMessage, empty_unmarshal_returns, empty_unmarshal-empty_marshal,
}

abbrev pub QueryParamsRequest : Type 0
QueryParamsRequest = Empty

unfoldable pub reset : Option QueryParamsRequest → Outcome QueryParamsRequest
reset x = empty_reset x

unfoldable pub range : (S : Type 0) → Visitor Empty S → Option QueryParamsRequest → S → Outcome S
range S f x s = empty_range S f x s

unfoldable pub has : Bytes → Option QueryParamsRequest → Outcome Bool
has n x = empty_has n x

unfoldable pub clear : Bytes → Option QueryParamsRequest → Outcome QueryParamsRequest
clear n x = empty_clear n x

unfoldable pub get : Bytes → Option QueryParamsRequest → Outcome (Value Empty)
get n x = empty_get n x

unfoldable pub set : Bytes → Value Empty → Option QueryParamsRequest → Outcome QueryParamsRequest
set n v x = empty_set n v x

unfoldable pub mutable :
    Bytes → Option QueryParamsRequest → Outcome (QueryParamsRequest × Value Empty)
mutable n x = empty_mutable n x

unfoldable pub new_field : Bytes → Outcome (Value Empty)
new_field n = empty_new_field n

unfoldable pub which_oneof : Bytes → Option QueryParamsRequest → Outcome (Option Bytes)
which_oneof n x = empty_which_oneof n x

unfoldable pub get_unknown : Option QueryParamsRequest → Outcome (Option Bytes)
get_unknown x = empty_get_unknown x

unfoldable pub set_unknown : Option Bytes → Option QueryParamsRequest → Outcome QueryParamsRequest
set_unknown u x = empty_set_unknown u x

unfoldable pub is_valid : Option QueryParamsRequest → Bool
is_valid x = empty_is_valid x

abbrev pub reflection : Methods QueryParamsRequest Empty
reflection = record {
  names = [];
  range = range;
  has = has;
  clear = clear;
  get = get;
  set = set;
  mutable = mutable;
  new_field = new_field;
  get_unknown = get_unknown;
  set_unknown = set_unknown;
}

-- The methods of `QueryParamsRequest` keep the laws of `IsMessage`.
pub request-IsMessage : IsMessage reflection
unfolding range has clear get set mutable new_field get_unknown set_unknown
request-IsMessage = empty_reflection-IsMessage

module _ (r : Runtime) where
  unfoldable pub size : Option QueryParamsRequest → ℕ
  size x = empty_size r x

  unfoldable pub marshal : Option QueryParamsRequest → Option Bytes → Outcome (Option Bytes)
  unfolding size
  marshal x buf = empty_marshal r x buf

  unfoldable pub unmarshal :
      Bool → Bytes → Option QueryParamsRequest → Outcome (Option QueryParamsRequest)
  unmarshal discard src x = empty_unmarshal r discard src x

module _ (r : Runtime) (laws : RuntimeLaws r) where
  -- On every input of a length that an int holds, well formed or not, `unmarshal` comes back with a message or with an error.
  pub request_unmarshal_returns :
      (discard : Bool) (src : Bytes) (x : Option QueryParamsRequest)
      → length src < 2 ^ 63
      → Yields (λ _. Unit) (unmarshal r discard src x)
  unfolding unmarshal
  request_unmarshal_returns = empty_unmarshal_returns r laws

  -- A message whose unknown fields are fields, of a length that an int holds, is read back from what
  -- `marshal` wrote with them, or without where they are discarded.
  pub request_unmarshal-marshal :
      (m : QueryParamsRequest) (discard : Bool) (fs : List WireField)
      → contents m.unknown_fields ≡ fields_bytes fs
      → AreForeign r.skip handle_field fs
      → length (contents m.unknown_fields) < 2 ^ 63
      → (marshal r (some m) none >>= λ out. unmarshal r discard (contents out) (some zero_empty))
        ≡ ok (some (record { unknown_fields = kept discard fs }))
  unfolding marshal unmarshal
  request_unmarshal-marshal = empty_unmarshal-empty_marshal r laws
