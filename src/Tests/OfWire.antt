-- ===== src/Tests/OfWire.antt =====
-- The wire format at concrete inputs.
use bluechip_chain_official.Prelude.{◌≡◌, refl, [], ◌∷◌, ok}
use bluechip_chain_official.Wire.Leb.{groups, varint}
use bluechip_chain_official.Wire.Read.{read_varint, read_loop, skip, skip_value, skip_loop}

varint_300 : varint 300 ≡ 0xac ∷ 0x02 ∷ []
unfolding groups
varint_300 = refl

-- The length of a field may go past the end: that is for the caller to check.
skip_short : skip (0x0a ∷ 0x05 ∷ []) ≡ ok 7
unfolding skip skip_loop skip_value read_varint read_loop
skip_short = refl
