-- ===== src/Wire/Varint.antt =====
-- `sovParams` and `encodeVarintParams` of x/fixedmint/types/params.pb.go.
pub mod Width
pub mod Encode
use bluechip_chain_official.Prelude.{
  ℕ, zero, suc, ◌+◌, ◌-◌, ◌/◌, ◌%◌, ◌^◌, bit_and, bit_or, Bytes, Outcome, ok, panic, stuck, ◌>>=◌,
  ltb, leb, ◌==◌, if◌then◌else◌, length, set,
}

-- The binary digits of a number that has at most `rounds` of them.
unfoldable pub digit_count : ℕ → ℕ → ℕ
digit_count zero x = 0
digit_count (suc rounds) x = let more = digit_count rounds (x / 2) in if x == 0 then 0 else suc more

-- `bits.Len64` of the standard library.
unfoldable pub len64 : ℕ → ℕ
unfolding digit_count
len64 x = digit_count 64 x

unfoldable pub sov : ℕ → ℕ
sov x = (len64 (bit_or x 1) + 6) / 7

-- `dAtA[i] = b`
unfoldable pub store : Bytes → ℕ → ℕ → Outcome Bytes
store buf i b = if ltb i (length buf) then ok (set buf i b) else panic

-- The loop of `encodeVarintParams`; a uint64 has at most nine groups of seven bits below the last.
unfoldable pub encode_varint_loop : ℕ → Bytes → ℕ → ℕ → Outcome Bytes
encode_varint_loop zero buf offset v = stuck
encode_varint_loop (suc rounds) buf offset v =
    let more = (do
      buf' ← store buf offset (bit_or (bit_and v 0x7f) 0x80 % 256)
      encode_varint_loop rounds buf' (offset + 1) (v / 2 ^ 7)) in
    if leb (2 ^ 7) v then more else store buf offset (v % 256)

-- A negative offset makes the first write panic.
unfoldable pub encode_varint : Bytes → ℕ → ℕ → Outcome (Bytes × ℕ)
encode_varint buf offset v =
    let base = offset - sov v in
    if ltb offset (sov v)
    then panic
    else (do buf' ← encode_varint_loop 10 buf base v; ok (buf', base))
