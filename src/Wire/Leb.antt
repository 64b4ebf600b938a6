-- ===== src/Wire/Leb.antt =====
-- The base-128 numbers of the wire format, in plain arithmetic: the description against which the
-- loops of the generated code are proved.
use bluechip_chain_official.Prelude.{
  ℕ, zero, suc, ◌+◌, ◌*◌, ◌/◌, ◌%◌, ◌^◌, ◌≤◌, ◌<◌, ◌≡◌, refl, arith, Bytes, [], ◌∷◌, ◌++◌, ltb,
  if◌then◌else◌, length, All,
}

abbrev pub IsByte : ℕ → Type 0
IsByte b = b < 256

-- The groups of seven bits of `v`, lowest first, the top bit set on all but the last; for `v` below
-- 128 ^ (k + 1).
unfoldable pub groups : ℕ → ℕ → Bytes
groups zero v = v ∷ []
groups (suc k) v =
    let rest = groups k (v / 128) in if ltb v 128 then v ∷ [] else (v % 128 + 128) ∷ rest

-- A uint64 has at most ten groups.
abbrev pub varint : ℕ → Bytes
varint v = groups 9 v

-- A length-delimited field.
abbrev pub delimited : ℕ → Bytes → Bytes
delimited tag s = tag ∷ (varint (length s) ++ s)

-- A string that is the first field: it is left out where it is empty.
abbrev pub string_bytes : Bytes → Bytes
string_bytes s = if ltb 0 (length s) then delimited 0xa s else []

pub length-groups : (k v : ℕ) → (1 ≤ length (groups k v)) × (length (groups k v) ≤ k + 1)
unfolding groups
length-groups zero v = omega arith
length-groups (suc k) v = ground (arith, length-groups k (v / 128))

pub groups-IsByte : (k v : ℕ) → v < 128 ^ suc k → All IsByte (groups k v)
unfolding groups
groups-IsByte zero v h = omega arith
groups-IsByte (suc k) v h = ground (arith, groups-IsByte k (v / 128) (omega arith))

-- A number below 128 is its own byte, with any room above.
pub groups_small : (k v : ℕ) → v < 128 → groups k v ≡ v ∷ []
unfolding groups
groups_small zero v h = refl
groups_small (suc k) v h = ground arith

pub groups_more : (k v : ℕ) → 128 ≤ v → groups (suc k) v ≡ (v % 128 + 128) ∷ groups k (v / 128)
unfolding groups
groups_more k v h = ground arith

-- The lowest bit has no part in the length.
pub length-groups_odd : (k v : ℕ) → length (groups k (v / 2 * 2 + 1)) ≡ length (groups k v)
unfolding groups
length-groups_odd zero v = refl
length-groups_odd (suc k) v =
    let same : (v / 2 * 2 + 1) / 128 ≡ v / 128 = omega arith in rw same (ground arith)
