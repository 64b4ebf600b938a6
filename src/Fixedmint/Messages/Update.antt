-- ===== src/Fixedmint/Messages/Update.antt =====
-- `MsgUpdateParams` and its response on the wire: x/fixedmint/types/tx.pb.go.
pub mod Lemmas
use bluechip_chain_official.Prelude.{
  ℕ, ◌+◌, Bool, true, false, not, Bytes, [], Outcome, ok, wrong_wire_type, ◌>>=◌, ◌>>◌, fail_if,
  ltb, ◌==◌, if◌then◌else◌, length,
}
use bluechip_chain_official.MathInt.{MathInt}
use bluechip_chain_official.Fixedmint.Params.{zero_params}
use bluechip_chain_official.Fixedmint.Keeper.{MsgUpdateParams}
use bluechip_chain_official.Fixedmint.Messages.{params_size, put_params, read_params}
use bluechip_chain_official.Wire.Varint.{sov}
use bluechip_chain_official.Wire.Buffer.{Cursor, put_byte, put_string, put_varint, sized, made}
use bluechip_chain_official.Wire.Read.{read_delimited, skip}
use bluechip_chain_official.Wire.Message.{dropped, Handled, next, unknown, unmarshal_into}

-- The file's own copies of the loops.
unfoldable pub skip_tx : Bytes → Outcome ℕ
skip_tx data' = skip data'

module _ (n : MathInt) where
  open n use {Int}

  unfoldable pub zero_msg : MsgUpdateParams Int
  zero_msg = record { authority = []; params = zero_params n }

  unfoldable pub msg_size : MsgUpdateParams Int → ℕ
  msg_size m =
      (if ltb 0 (length m.authority) then 1 + length m.authority + sov (length m.authority) else 0)
      + params_size n m.params

  unfoldable pub put_authority : MsgUpdateParams Int → Cursor → Outcome Cursor
  put_authority m c =
      if ltb 0 (length m.authority)
      then (do
        c' ← put_string m.authority c
        c'' ← put_varint (length m.authority) c'
        put_byte 0xa c'')
      else ok c

  unfoldable pub put_msg : MsgUpdateParams Int → Cursor → Outcome Cursor
  unfolding put_authority
  put_msg m c = do c' ← put_params n 0x12 m.params c; put_authority m c'

  unfoldable pub msg_marshal_to_sized_buffer : MsgUpdateParams Int → Bytes → Outcome (Bytes × ℕ)
  unfolding put_msg
  msg_marshal_to_sized_buffer m buf = sized (put_msg m) buf

  unfoldable pub msg_marshal : MsgUpdateParams Int → Outcome Bytes
  unfolding msg_size msg_marshal_to_sized_buffer
  msg_marshal m = made (msg_size m) (msg_marshal_to_sized_buffer m)

  -- The switch on the field's number.
  unfoldable pub handle_msg :
      ℕ → ℕ → ℕ → Bytes → ℕ → MsgUpdateParams Int → Outcome (Handled (MsgUpdateParams Int))
  handle_msg field t l src i m =
      if field == 1
      then (do
        fail_if (not (t == 2)) (wrong_wire_type t 1)
        (s, i', rest) ← read_delimited l src i
        ok (next (record m { authority = s }) i' rest))
      else if field == 2
      then (do
        fail_if (not (t == 2)) (wrong_wire_type t 2)
        (p, i', rest) ← read_params n l src i m.params
        ok (next (record m { params = p }) i' rest))
      else ok unknown

  unfoldable pub msg_unmarshal : Bytes → MsgUpdateParams Int → Outcome (MsgUpdateParams Int)
  unfolding skip_tx handle_msg
  msg_unmarshal src m = unmarshal_into skip_tx dropped handle_msg src m

-- A message without fields: the response, for which every field is unknown.
unfoldable pub handle_response : ℕ → ℕ → ℕ → Bytes → ℕ → Unit {0} → Outcome (Handled (Unit {0}))
handle_response field t l src i m = ok unknown

unfoldable pub response_unmarshal : Bytes → Unit {0} → Outcome (Unit {0})
unfolding skip_tx handle_response
response_unmarshal src m = unmarshal_into skip_tx dropped handle_response src m

unfoldable pub response_marshal : Unit {0} → Outcome Bytes
response_marshal m = made 0 (sized ok)
