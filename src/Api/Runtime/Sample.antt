-- ===== src/Api/Runtime/Sample.antt =====
-- A runtime of which the laws hold: the functions that x/fixedmint/types has copies of, and options
-- that call the method.
use bluechip_chain_official.Prelude.{none, refl, ok, ◌>>=◌}
use bluechip_chain_official.Wire.Varint.{sov, encode_varint}
use bluechip_chain_official.Wire.Varint.Width.{sov-length}
use bluechip_chain_official.Wire.Varint.Encode.{encode_varint_at}
use bluechip_chain_official.Wire.Read.{skip}
use bluechip_chain_official.Wire.Read.Progress.{skip_moves}
use bluechip_chain_official.Api.Runtime.{Runtime, RuntimeLaws, contents}

abbrev pub sample_runtime : Runtime
sample_runtime = record {
  sov = sov;
  encode_varint = encode_varint;
  skip = skip;
  options_size = λ size x. size x;
  options_marshal = λ marshal x. marshal x none >>= λ b. ok (contents b);
  options_unmarshal = λ unmarshal discard src x. unmarshal discard src x;
}

pub sample_runtime_laws : RuntimeLaws sample_runtime
sample_runtime_laws = record {
  sov_lem = sov-length;
  encode_varint_lem = encode_varint_at;
  skip_moves = skip_moves;
  options_size_lem = λ size x. refl;
  options_marshal_lem = λ marshal x. refl;
  options_unmarshal_lem = λ unmarshal discard src x. refl;
}
