-- ===== src/SettingsStore/Stored.antt =====
-- Typed settings, written and read back.
use api_to_dns.Prelude.{◌<◌, ◌≡◌, refl, Bool, true, false, some, [], ◌∷◌, arith, if◌then◌else◌}
use api_to_dns.Text.{Text, str, ◌===◌, int_of, ℤ, nonnegative, negative, text_runs}
use api_to_dns.Text.Equal.{===_iff, ===_refl}
use api_to_dns.Text.Decimal.{int_of-minus-show, int_of-show}
use api_to_dns.Fault.{ok}
use api_to_dns.SettingsStore.{
  require_spec, get_typed_setting_by_key, set_typed_setting_by_key, Codec, IsCodec, Value, text,
  flag, number, Settings, row_of, put_row, get_setting, set_setting, show_int, encode_as,
  read_value, parse_typed, encode_typed, get_typed_setting, set_typed_setting,
}
use api_to_dns.SettingsStore.Registry.{
  ValueType, string, boolean, integer, json, SettingSpec, get_spec,
}

-- The value found at a name, after a write at a key.
row_of-put_row :
    (key value name : Text) (rows : Settings)
    → row_of name (put_row key value rows) ≡ (if key === name then some value else row_of name rows)
unfolding row_of put_row
row_of-put_row key value name [] = refl
row_of-put_row key value name ((k, v) ∷ rows) =
    ground
      (arith, ===_iff key name, ===_iff k key, ===_iff k name, row_of-put_row key value name rows)

-- -0 is no number of Python's.
abbrev pub IsNumber : ℤ → Type 0
IsNumber (nonnegative n) = Unit
IsNumber (negative n) = 0 < n

-- A value of a setting's type.
pub data HasType (Json : Type 0) : ValueType → Value Json → Type 0 where
  a_text : (s : Text) → HasType Json string (text s)
  a_flag : (b : Bool) → HasType Json boolean (flag b)
  a_number : (n : ℤ) → IsNumber n → HasType Json integer (number n)
  any_value : (value : Value Json) → HasType Json json value

int_of-show_int : (n : ℤ) → IsNumber n → int_of (show_int n) ≡ some n
unfolding show_int
int_of-show_int (nonnegative n) h = int_of-show n
int_of-show_int (negative n) h = int_of-minus-show n h

module _ (codec : Codec) (laws : IsCodec codec) where
  open codec use {Json, encrypt, decrypt, dumps, loads}

  -- What a setting's value is written as is read back as that value.
  read-encoded :
      (key : Text) {type : ValueType} {value : Value Json}
      → HasType Json type value
      → (raw : Text) × (encode_as codec key type value ≡ ok raw)
        × (read_value codec key type raw ≡ ok value)
  unfolding text_runs
  read-encoded key (a_text s) = (s, refl, refl)
  read-encoded key (a_flag true) = (str "true", refl, refl)
  read-encoded key (a_flag false) = (str "false", refl, refl)
  read-encoded key (a_number n h) = (show_int n, refl, rw (int_of-show_int n h))
  read-encoded key (any_value value) =
      (dumps value, refl, rw (laws.not_blank value, laws.loads_back value))

  stored_back :
      (spec : SettingSpec) (value : Value Json) (rows : Settings)
      → HasType Json spec.value_type value
      → (raw : Text) × (set_typed_setting codec spec value rows
          ≡ ok (put_row spec.key (encrypt raw) rows))
        × (get_typed_setting codec spec (put_row spec.key (encrypt raw) rows) ≡ ok value)
  unfolding set_typed_setting get_typed_setting encode_typed parse_typed set_setting get_setting
  stored_back spec value rows h =
      let (raw, written, back) = read-encoded spec.key h in
      (
        raw,
        rw written,
        rw
            (
              row_of-put_row spec.key (encrypt raw) spec.key rows,
              ===_refl spec.key,
              laws.decrypts raw,
            )
            back,
      )

  -- For encryption and JSON that can be undone: a value of the setting's type is stored, and is read back
  -- as it was; another name keeps its text.
  pub get_typed_setting-set_typed_setting :
      (spec : SettingSpec) (value : Value Json) (rows : Settings) (name : Text)
      → HasType Json spec.value_type value
      → (spec.key === name) ≡ false
      → (after : Settings) × (set_typed_setting codec spec value rows ≡ ok after)
        × (get_typed_setting codec spec after ≡ ok value)
        × (get_setting codec name after ≡ get_setting codec name rows)
  unfolding get_setting
  get_typed_setting-set_typed_setting spec value rows name h other =
      let (raw, written, back) = stored_back spec value rows h in
      (
        put_row spec.key (encrypt raw) rows,
        written,
        back,
        rw (row_of-put_row spec.key (encrypt raw) name rows, other),
      )

  -- The same by the key of a registered setting.
  pub get_typed_setting_by_key-set_typed_setting_by_key :
      (key : Text) (spec : SettingSpec) (value : Value Json) (rows : Settings)
      → get_spec key ≡ some spec
      → HasType Json spec.value_type value
      → (after : Settings) × (set_typed_setting_by_key codec key value rows ≡ ok after)
        × (get_typed_setting_by_key codec key after ≡ ok value)
  unfolding set_typed_setting_by_key get_typed_setting_by_key require_spec
  get_typed_setting_by_key-set_typed_setting_by_key key spec value rows e h =
      let (raw, written, back) = stored_back spec value rows h in
      (put_row spec.key (encrypt raw) rows, rw e written, rw e back)
