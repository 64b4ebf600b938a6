-- ===== src/Api/Single/Genesis.antt =====
-- `GenesisState` of api/bluechipchain/fixedmint/genesis.pulsar.go.
use bluechip_chain_official.Prelude.{
  ℕ, ◌≡◌, Bool, List, Option, none, some, Bytes, bytes, Outcome, ok, ◌>>=◌, Yields, length, ◌<◌,
  ◌^◌,
}
use bluechip_chain_official.Api.Runtime.{Runtime, RuntimeLaws, contents}
use bluechip_chain_official.Api.Reflect.{Value, Visitor}
use bluechip_chain_official.Api.Reflect.Contract.{Methods, IsMessage}
use bluechip_chain_official.Api.Params.{Params}
use bluechip_chain_official.Api.Buffer.Reads.{WireField, fields_bytes, AreForeign, kept}
use bluechip_chain_official.Api.Nested.Laws.{HasForeign, params_kept}
use bluechip_chain_official.Api.Single.{
  Single, Field, zero_single, single_reset, single_get_params, single_range, single_has,
  single_clear, single_get, single_set, single_mutable, single_new_field, single_which_oneof,
  single_get_unknown, single_set_unknown, single_is_valid, single_size, handle_field,
  single_marshal, single_unmarshal,
}
use bluechip_chain_official.Api.Single.Reflection.{single_reflection, single_reflection-IsMessage}
use bluechip_chain_official.Api.Single.Codec.{
  FitsInt, single_unmarshal_returns, single_unmarshal-single_marshal,
}

abbrev pub GenesisState : Type 0
GenesisState = Single

-- `fd.FullName()` of the field.
unfoldable pub params_name : Bytes
params_name = bytes "bluechipchain.fixedmint.GenesisState.params"

unfoldable pub reset : Option GenesisState → Outcome GenesisState
reset x = single_reset x

unfoldable pub get_params : Option GenesisState → Option Params
get_params x = single_get_params x

unfoldable pub range : (S : Type 0) → Visitor Params S → Option GenesisState → S → Outcome S
range S f x s = single_range params_name S f x s

unfoldable pub has : Bytes → Option GenesisState → Outcome Bool
has n x = single_has params_name n x

unfoldable pub clear : Bytes → Option GenesisState → Outcome GenesisState
clear n x = single_clear params_name n x

unfoldable pub get : Bytes → Option GenesisState → Outcome (Value Params)
get n x = single_get params_name n x

unfoldable pub set : Bytes → Value Params → Option GenesisState → Outcome GenesisState
set n v x = single_set params_name n v x

unfoldable pub mutable : Bytes → Option GenesisState → Outcome (GenesisState × Value Params)
mutable n x = single_mutable params_name n x

unfoldable pub new_field : Bytes → Outcome (Value Params)
new_field n = single_new_field params_name n

unfoldable pub which_oneof : Bytes → Option GenesisState → Outcome (Option Field)
which_oneof n x = single_which_oneof n x

unfoldable pub get_unknown : Option GenesisState → Outcome (Option Bytes)
get_unknown x = single_get_unknown x

unfoldable pub set_unknown : Option Bytes → Option GenesisState → Outcome GenesisState
set_unknown u x = single_set_unknown u x

unfoldable pub is_valid : Option GenesisState → Bool
is_valid x = single_is_valid x

abbrev pub reflection : Methods GenesisState Params
reflection = record {
  names = (single_reflection params_name).names;
  range = range;
  has = has;
  clear = clear;
  get = get;
  set = set;
  mutable = mutable;
  new_field = new_field;
  get_unknown = get_unknown;
  set_unknown = set_unknown;
}

-- The methods of `GenesisState` keep the laws of `IsMessage`.
pub genesis-IsMessage : IsMessage reflection
unfolding range has clear get set mutable new_field get_unknown set_unknown
genesis-IsMessage = single_reflection-IsMessage params_name

module _ (r : Runtime) where
  unfoldable pub size : Option GenesisState → ℕ
  size x = single_size r x

  unfoldable pub marshal : Option GenesisState → Option Bytes → Outcome (Option Bytes)
  unfolding size
  marshal x buf = single_marshal r x buf

  unfoldable pub unmarshal : Bool → Bytes → Option GenesisState → Outcome (Option GenesisState)
  unmarshal discard src x = single_unmarshal r discard src x

module _ (r : Runtime) (laws : RuntimeLaws r) where
  -- On every input of a length that an int holds, well formed or not, `unmarshal` comes back with a message or with an error.
  pub genesis_unmarshal_returns :
      (discard : Bool) (src : Bytes) (x : Option GenesisState)
      → length src < 2 ^ 63
      → Yields (λ _. Unit) (unmarshal r discard src x)
  unfolding unmarshal
  genesis_unmarshal_returns = single_unmarshal_returns r laws

  -- A message of a length that an int holds, whose unknown fields, and those of its parameters, are
  -- foreign ones, is read back from what `marshal` wrote as it was, with the unknown fields, or without
  -- where those are discarded.
  pub genesis_unmarshal-marshal :
      (m : GenesisState) (discard : Bool) (fs gs : List WireField)
      → contents m.unknown_fields ≡ fields_bytes fs
      → AreForeign r.skip (handle_field r discard) fs
      → HasForeign r gs m.params
      → FitsInt m
      → (marshal r (some m) none >>= λ out. unmarshal r discard (contents out) (some zero_single))
        ≡ ok (
            some (record {
              params = params_kept discard gs m.params;
              unknown_fields = kept discard fs;
            }))
  unfolding marshal unmarshal
  genesis_unmarshal-marshal = single_unmarshal-single_marshal r laws
