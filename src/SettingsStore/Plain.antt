-- ===== src/SettingsStore/Plain.antt =====
-- A codec that can be undone, without secrets and with JSON of one structure, for runs.
use api_to_dns.Prelude.{
  ℕ, ◌≡◌, refl, Bool, true, false, Option, none, some, [], ◌∷◌, if◌then◌else◌, ◌==◌,
}
use api_to_dns.Text.{
  Text, nonnegative, negative, is_empty, is_space, strip, drop_while, drop_while_end, keep_end,
}
use api_to_dns.SettingsStore.{Codec, IsCodec, Value, nothing, text, flag, number, structure}

abbrev pub OneStructure : Type 0
OneStructure = Unit

abbrev write_flag : Bool → ℕ
write_flag false = 0
write_flag true = 1

-- A letter, and what the value holds.
abbrev pub plain_dumps : Value OneStructure → Text
plain_dumps nothing = b'n' ∷ []
plain_dumps (text s) = b't' ∷ s
plain_dumps (flag b) = b'f' ∷ write_flag b ∷ []
plain_dumps (number (nonnegative n)) = b'p' ∷ n ∷ []
plain_dumps (number (negative n)) = b'm' ∷ n ∷ []
plain_dumps (structure j) = b's' ∷ []

abbrev with_number : ℕ → ℕ → Option (Value OneStructure)
with_number c n =
    if c == b'f'
    then some (flag (n == 1))
    else if c == b'p'
    then some (number (nonnegative n))
    else if c == b'm'
    then some (number (negative n))
    else none

abbrev alone : ℕ → Option (Value OneStructure)
alone c = if c == b'n' then some nothing else if c == b's' then some (structure tt) else none

abbrev otherwise : ℕ → Text → Option (Value OneStructure)
otherwise c [] = alone c
otherwise c (n ∷ []) = with_number c n
otherwise c (n ∷ m ∷ s) = none

abbrev pub plain_loads : Text → Option (Value OneStructure)
plain_loads [] = none
plain_loads (c ∷ s) = if c == b't' then some (text s) else otherwise c s

abbrev pub plain : Codec
plain = record {
  Json = OneStructure;
  encrypt = λ s. s;
  decrypt = λ s. s;
  dumps = plain_dumps;
  loads = plain_loads;
  shown = λ j. [];
  truthy = λ j. true;
}

plain-loads_back : (v : Value OneStructure) → plain_loads (plain_dumps v) ≡ some v
plain-loads_back nothing = refl
plain-loads_back (text s) = refl
plain-loads_back (flag false) = refl
plain-loads_back (flag true) = refl
plain-loads_back (number (nonnegative n)) = refl
plain-loads_back (number (negative n)) = refl
plain-loads_back (structure tt) = refl

keep_end_some : (c : ℕ) (s : Text) → is_space c ≡ false → is_empty (keep_end is_space c s) ≡ false
keep_end_some c [] h = rw h
keep_end_some c (d ∷ s) h = refl

strip_some : (c : ℕ) (s : Text) → is_space c ≡ false → is_empty (strip (c ∷ s)) ≡ false
unfolding strip drop_while drop_while_end
strip_some c s h = rw h (keep_end_some c (drop_while_end is_space s) h)

plain-not_blank : (v : Value OneStructure) → is_empty (strip (plain_dumps v)) ≡ false
unfolding is_space
plain-not_blank nothing = strip_some b'n' _ refl
plain-not_blank (text s) = strip_some b't' s refl
plain-not_blank (flag b) = strip_some b'f' _ refl
plain-not_blank (number (nonnegative n)) = strip_some b'p' _ refl
plain-not_blank (number (negative n)) = strip_some b'm' _ refl
plain-not_blank (structure j) = strip_some b's' _ refl

pub plain-IsCodec : IsCodec plain
plain-IsCodec = record {
  decrypts = λ s. refl;
  loads_back = plain-loads_back;
  not_blank = plain-not_blank;
}
