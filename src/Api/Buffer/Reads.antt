-- ===== src/Api/Buffer/Reads.antt =====
-- What `unmarshal` makes of the fields that `marshal` wrote, the unknown ones among them.
use bluechip_chain_official.Prelude.{
  ℕ, ◌+◌, ◌/◌, ◌%◌, ◌^◌, ◌≤◌, ◌<◌, ◌≡◌, ◌≢◌, refl, sym, ◌∙◌, ap, subst, arith, Bool, true, false,
  List, Option, none, some, Bytes, [], ◌∷◌, ◌++◌, Outcome, ok, ◌>>=◌, ltb, if◌then◌else◌, length,
  length-append, append-nil, append_assoc, Yields, Yields->>=,
}
use bluechip_chain_official.Wire.Leb.{varint, delimited}
use bluechip_chain_official.Wire.Read.{read_delimited}
use bluechip_chain_official.Wire.Message.{Handler, next, unknown, unmarshal_into}
use bluechip_chain_official.Wire.Message.Total.{IsTotal, unmarshal_into_total}
use bluechip_chain_official.Wire.Message.Fields.{
  Decodes, Decodes-end, Decodes-delimited, Decodes-unknown,
}
use bluechip_chain_official.Api.Runtime.{Runtime, RuntimeLaws}
use bluechip_chain_official.Api.Buffer.{append_unknown, read_fields}
use bluechip_chain_official.Api.Buffer.Writes.{text_bytes}

-- A field of the wire, by its tag and what stands behind the tag.
pub record WireField : Type 0 where
  pub tag : ℕ
  pub payload : Bytes

abbrev pub field_bytes : WireField → Bytes
field_bytes f = varint f.tag ++ f.payload

abbrev pub fields_bytes : List WireField → Bytes
fields_bytes [] = []
fields_bytes (f ∷ fs) = field_bytes f ++ fields_bytes fs

-- A tag of a field that the message has not, that ends no group, and that is no larger than tags are.
abbrev pub IsForeignTag : {M : Type 0} → Handler M → ℕ → Type 0
IsForeignTag {M} h tag =
    (8 ≤ tag)
    × (tag < 2 ^ 32)
    × (tag % 8 ≢ 4)
    × ((l : ℕ) (src : Bytes) (j : ℕ) (m : M) → h (tag / 8) (tag % 8) l src j m ≡ ok unknown)

-- Fields that the message has not, one behind the other, whose ends `Skip` finds.
abbrev pub AreForeign : {M : Type 0} → (Bytes → Outcome ℕ) → Handler M → List WireField → Type 0
AreForeign skip h [] = Unit
AreForeign skip h (f ∷ fs) =
    IsForeignTag h f.tag
    × (skip (field_bytes f ++ fields_bytes fs) ≡ ok (length (field_bytes f)))
    × AreForeign skip h fs

-- The message with the fields kept, each in its turn.
abbrev pub keep_all : {M : Type 0} → (Bytes → M → M) → List WireField → M → M
keep_all keep [] m = m
keep_all keep (f ∷ fs) m = keep_all keep fs (keep (field_bytes f) m)

-- The unknown fields of a message that had none, after `fs` were read.
abbrev pub kept : Bool → List WireField → Option Bytes
kept discard fs = if discard then none else append_unknown none (fields_bytes fs)

append_twice :
    (u : Option Bytes) (a b : Bytes)
    → append_unknown (append_unknown u a) b ≡ append_unknown u (a ++ b)
unfolding append_unknown
append_twice none [] b = refl
append_twice none (x ∷ a) b = refl
append_twice (some u) a b = ap some (append_assoc u a b)

append_nothing : (u : Option Bytes) → append_unknown u [] ≡ u
unfolding append_unknown
append_nothing none = refl
append_nothing (some u) = ap some (append-nil u)

-- What is done with a field that is unknown.
abbrev pub keep_in :
    {M : Type 0} → (M → Option Bytes) → (Option Bytes → M → M) → Bool → Bytes → M → M
keep_in unknown_of with_unknown discard bs m =
    if discard then m else with_unknown (append_unknown (unknown_of m) bs) m

-- A message that keeps its unknown fields in order, where `DiscardUnknown` is not set.
module _ {M : Type 0} (unknown_of : M → Option Bytes) (with_unknown : Option Bytes → M → M)
    (same : (m : M) → with_unknown (unknown_of m) m ≡ m)
    (read_back : (u : Option Bytes) (m : M) → unknown_of (with_unknown u m) ≡ u)
    (last : (u v : Option Bytes) (m : M)
      → with_unknown u (with_unknown v m) ≡ with_unknown u m) where
  keep_all_none :
      (fs : List WireField) (m : M) → keep_all (keep_in unknown_of with_unknown true) fs m ≡ m
  keep_all_none [] m = refl
  keep_all_none (f ∷ fs) m = keep_all_none fs m

  keep_all_lem :
      (fs : List WireField) (m : M)
      → keep_all (keep_in unknown_of with_unknown false) fs m
        ≡ with_unknown (append_unknown (unknown_of m) (fields_bytes fs)) m
  keep_all_lem [] m = rw (append_nothing (unknown_of m)) (sym (same m))
  keep_all_lem (f ∷ fs) m =
      let u = append_unknown (unknown_of m) (field_bytes f) in
      keep_all_lem fs (with_unknown u m)
      ∙ rw
          (read_back u m, last _ u m, append_twice (unknown_of m) (field_bytes f) (fields_bytes fs))

  pub keep_all-kept :
      (discard : Bool) (fs : List WireField) (m : M)
      → unknown_of m ≡ none
      → keep_all (keep_in unknown_of with_unknown discard) fs m ≡ with_unknown (kept discard fs) m
  keep_all-kept true fs m e = keep_all_none fs m ∙ sym (same m) ∙ ap (λ u. with_unknown u m) e
  keep_all-kept false fs m e = keep_all_lem fs m ∙ rw e

module _ {M : Type 0} (skip_field : Bytes → Outcome ℕ) (keep : Bytes → M → M) (h : Handler M)
    (l : ℕ) (fits : l < 2 ^ 63) where
  pub Decodes-foreign :
      (fs : List WireField) (i : ℕ) (m : M)
      → AreForeign skip_field h fs
      → i + length (fields_bytes fs) ≤ l
      → Decodes skip_field keep h l (fields_bytes fs) i m (keep_all keep fs m)
  Decodes-foreign [] i m g room = Decodes-end skip_field keep h l i m (omega arith)
  Decodes-foreign (f ∷ fs) i m ((lo, hi, ne, foreign), skips, later) room =
      let total = length-append (field_bytes f) (fields_bytes fs) in
      Decodes-unknown skip_field keep h l f.tag f.payload (fields_bytes fs) lo hi ne fits skips
        (foreign l) i m (keep_all keep (f ∷ fs) m) (omega arith)
        (Decodes-foreign fs (i + length (field_bytes f)) (keep (field_bytes f) m) later
          (omega arith))

  -- A string that is written where it is not empty, into a message that has the empty one.
  module _ (tag : ℕ) (set : Bytes → M → M) (lo : 8 ≤ tag) (hi : tag < 128) (ne : tag % 8 ≢ 4)
      (handles : (m : M) (src : Bytes) (j : ℕ)
        → h (tag / 8) (tag % 8) l src j m
          ≡ (read_delimited l src j >>= λ r. ok (set r.0 m) >>= λ x. ok (next x r.1 r.2))) where
    written :
        (b : Bool) (s : Bytes) (i : ℕ) (m m'' : M) (rest : Bytes)
        → i + length (if b then delimited tag s else []) ≤ l
        → Decodes skip_field keep h l rest
            (i + length (if b then delimited tag s else []))
            (if b then set s m else m)
            m''
        → Decodes skip_field keep h l ((if b then delimited tag s else []) ++ rest) i m m''
    written false s i m m'' rest room k =
        subst (λ (j : ℕ). Decodes skip_field keep h l rest j m m'') (omega arith) k
    written true s i m m'' rest room k =
        Decodes-delimited skip_field keep h l (λ t x. ok (set t x)) tag s i m (set s m) m'' rest
          (handles m) lo hi ne fits room refl k

    set_text :
        (s : Bytes) (m : M) → set [] m ≡ m → (if ltb 0 (length s) then set s m else m) ≡ set s m
    set_text [] m e = sym e
    set_text (c ∷ s) m e = ground arith

    pub Decodes-text :
        (s : Bytes) (i : ℕ) (m m'' : M) (rest : Bytes)
        → set [] m ≡ m
        → i + length (text_bytes tag s) ≤ l
        → Decodes skip_field keep h l rest (i + length (text_bytes tag s)) (set s m) m''
        → Decodes skip_field keep h l (text_bytes tag s ++ rest) i m m''
    Decodes-text s i m m'' rest e room k = written (ltb 0 (length s)) s i m m'' rest room (
        subst (λ x. Decodes skip_field keep h l rest (i + length (text_bytes tag s)) x m'')
          (sym (set_text s m e)) k)

module _ (r : Runtime) (laws : RuntimeLaws r) where
  -- Every input ends in a message or in an error, where the handler comes back.
  pub read_fields_total :
      {M : Type 0} (h : Handler M) (keep : Bytes → M → M)
      → IsTotal h
      → (discard : Bool) (src : Bytes) (x : Option M) → length src < 2 ^ 63
      → Yields (λ _. Unit) (read_fields r h keep discard src x)
  unfolding read_fields
  read_fields_total h keep total discard src none fits = tt
  read_fields_total h keep total discard src (some m) fits =
      Yields->>= (λ _. Unit) (λ _. Unit) (unmarshal_into r.skip _ h src m) _
        (unmarshal_into_total r.skip _ h laws.skip_moves total src m fits) λ m' _. tt
