-- ===== src/Api/Empty/Laws.antt =====
-- A message without a field: its reflection, and its unknown fields on the wire.
use bluechip_chain_official.Prelude.{
  ◌^◌, ◌<◌, ◌≡◌, refl, ◌∙◌, ap, arith, Bool, List, Option, none, some, Bytes, [], ok, ◌>>=◌, length,
  Yields,
}
use bluechip_chain_official.Wire.Message.{unmarshal_into}
use bluechip_chain_official.Wire.Message.Total.{IsTotal}
use bluechip_chain_official.Wire.Message.Fields.{Decodes}
use bluechip_chain_official.Api.Reflect.{deref}
use bluechip_chain_official.Api.Reflect.Contract.{Methods, IsMessage}
use bluechip_chain_official.Api.Runtime.{Runtime, RuntimeLaws, contents}
use bluechip_chain_official.Api.Buffer.{put_unknown, appended, read_fields}
use bluechip_chain_official.Api.Buffer.Writes.{put_unknown-Writes, unknown_size-length, filled_lem}
use bluechip_chain_official.Api.Buffer.Reads.{
  WireField, fields_bytes, AreForeign, keep_all, kept, keep_in, keep_all-kept, Decodes-foreign,
  read_fields_total,
}
use bluechip_chain_official.Api.Empty.{
  Empty, zero_empty, empty_range, empty_has, empty_clear, empty_get, empty_set, empty_mutable,
  empty_new_field, empty_get_unknown, with_unknown, empty_set_unknown, empty_size, empty_marshal,
  handle_field, keep_unknown, empty_unmarshal,
}

abbrev pub empty_reflection : Methods Empty Empty
empty_reflection = record {
  names = [];
  range = empty_range;
  has = empty_has;
  clear = empty_clear;
  get = empty_get;
  set = empty_set;
  mutable = empty_mutable;
  new_field = empty_new_field;
  get_unknown = empty_get_unknown;
  set_unknown = empty_set_unknown;
}

set_unknown-get_unknown :
    (u : Option Bytes) (x : Option Empty)
    → (empty_set_unknown u x >>= λ m. empty_get_unknown (some m))
      ≡ (empty_set_unknown u x >>= λ m. ok u)
unfolding empty_set_unknown empty_get_unknown
set_unknown-get_unknown u none = refl
set_unknown-get_unknown u (some m) = refl

set_unknown-get :
    (u : Option Bytes) (n : Bytes) (x : Option Empty)
    → (empty_set_unknown u x >>= λ m. empty_get n (some m))
      ≡ (deref x >>= λ m. empty_get n (some m))
unfolding empty_set_unknown empty_get
set_unknown-get u n none = refl
set_unknown-get u n (some m) = refl

pub empty_reflection-IsMessage : IsMessage empty_reflection
unfolding empty_range empty_has empty_clear empty_get empty_set empty_mutable empty_new_field
empty_reflection-IsMessage = record {
  range-walk = λ S f m s. refl;
  has-get = λ n x. refl;
  clear-has = λ n x. refl;
  set-get = λ n v x. refl;
  set_other = λ n k v m m' ne h. refl;
  clear_other = λ n k m m' ne h. refl;
  mutable-get = λ n x. refl;
  mutable-has = λ n x. refl;
  mutable_allocates = λ n m p h. absurd (cc h);
  new_field-set = λ n m. refl;
  set_unknown-get_unknown = set_unknown-get_unknown;
  set_unknown-get = set_unknown-get;
}

handle_field-IsTotal : IsTotal handle_field
unfolding handle_field
handle_field-IsTotal field t l src i m e = tt

module _ (r : Runtime) (laws : RuntimeLaws r) where
  pub empty_unmarshal_returns :
      (discard : Bool) (src : Bytes) (x : Option Empty)
      → length src < 2 ^ 63
      → Yields (λ _. Unit) (empty_unmarshal r discard src x)
  unfolding empty_unmarshal
  empty_unmarshal_returns discard src x fits =
      read_fields_total r laws handle_field keep_unknown handle_field-IsTotal discard src x fits

  pub empty_marshal_lem :
      (m : Empty) (buf : Option Bytes)
      → empty_marshal r (some m) buf ≡ ok (appended buf (contents m.unknown_fields))
  unfolding empty_marshal empty_size
  empty_marshal_lem m buf =
      filled_lem (put_unknown m.unknown_fields) (contents m.unknown_fields) _ buf
        (put_unknown-Writes m.unknown_fields)
        (laws.options_size_lem (empty_size r) (some m) ∙ unknown_size-length m.unknown_fields)

  pub empty_unmarshal-empty_marshal :
      (m : Empty) (discard : Bool) (fs : List WireField)
      → contents m.unknown_fields ≡ fields_bytes fs
      → AreForeign r.skip handle_field fs
      → length (contents m.unknown_fields) < 2 ^ 63
      → (empty_marshal r (some m) none >>= λ out.
          empty_unmarshal r discard (contents out) (some zero_empty))
        ≡ ok (some (record { unknown_fields = kept discard fs }))
  unfolding appended empty_unmarshal read_fields unmarshal_into zero_empty
  empty_unmarshal-empty_marshal m discard fs known foreign h =
      let keep : Bytes → Empty → Empty = keep_in (λ x. x.unknown_fields) with_unknown discard in
      let fits : length (fields_bytes fs) < 2 ^ 63 = rw known at h in
      let l = length (fields_bytes fs) in
      let read : Decodes r.skip keep handle_field l (fields_bytes fs) 0 zero_empty
          (keep_all keep fs zero_empty) =
        Decodes-foreign r.skip keep handle_field l fits fs 0 zero_empty foreign (omega arith) in
      let same =
        keep_all-kept (λ (x : Empty). x.unknown_fields) with_unknown (λ x. refl) (λ u x. refl)
          (λ u v x. refl) discard fs zero_empty refl in
      rw (empty_marshal_lem m none)
        (rw known (rw (read l (omega arith)) (ap (λ (x : Empty). ok (some x)) same)))
