-- ===== src/Api/Reflect.antt =====
-- protoreflect.Message, the interface that every message of api/ implements: its values, what is
-- common to the generated methods, and the contract that their comments state.
pub mod Contract
pub mod Fields
use bluechip_chain_official.Prelude.{
  Bool, true, false, not, ◌&&◌, Option, none, some, List, [], ◌∷◌, Bytes, bytes_eq, Outcome, ok,
  panic, ◌>>=◌, if◌then◌else◌,
}

-- `protoreflect.Value`: a string, a boolean, a reference to a message of type `P`, or one of another
-- kind.
pub data Value (P : Type 0) : Type 0 where
  text_value : Bytes → Value P
  bool_value : Bool → Value P
  message_value : Option P → Value P
  other_value : Value P

-- A pointer that is dereferenced; the text of a panic is not modelled.
abbrev pub deref : {M : Type 0} → Option M → Outcome M
deref none = panic
deref (some m) = ok m

-- `value.Interface().(string)`, `value.Bool()` and `value.Message().Interface().(*P)`
abbrev pub as_text : {P : Type 0} → Value P → Outcome Bytes
as_text (text_value s) = ok s
as_text (bool_value b) = panic
as_text (message_value p) = panic
as_text other_value = panic

abbrev pub as_bool : {P : Type 0} → Value P → Outcome Bool
as_bool (text_value s) = panic
as_bool (bool_value b) = ok b
as_bool (message_value p) = panic
as_bool other_value = panic

abbrev pub as_message : {P : Type 0} → Value P → Outcome (Option P)
as_message (text_value s) = panic
as_message (bool_value b) = panic
as_message (message_value p) = ok p
as_message other_value = panic

-- `x != ""` and `x != nil`
abbrev pub nonempty : Bytes → Bool
nonempty s = not (bytes_eq s [])

abbrev pub present : {P : Type 0} → Option P → Bool
present none = false
present (some p) = true

-- `switch fd.FullName()`: the first case of that name; the default case panics.
abbrev pub switch : {F : Type 0} → (F → Bytes) → List F → Bytes → Outcome F
switch name [] s = panic
switch name (f ∷ fs) s = let later = switch name fs s in if bytes_eq s (name f) then ok f else later

-- `if populated { if !f(fd, value) { return } }`, where `S` is the state of the caller's `f`.
abbrev pub Visitor : Type 0 → Type 0 → Type 0
Visitor P S = Bytes → Value P → S → Outcome (Bool × S)

abbrev pub visit :
    {P S : Type 0} → Visitor P S → Bool → Bytes → Value P → (S → Outcome S) → S → Outcome S
visit f populated name v rest s =
    if populated then (f name v s >>= λ r. if r.0 then rest r.1 else ok r.1) else rest s
