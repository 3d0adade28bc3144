-- ===== src/SettingsStore.antt =====
-- settings_store.py: settings as encrypted rows, and their typed values. Encryption and JSON are
-- arguments. A row is found by its name, the first one that has it.
pub mod Registry
pub mod Stored
pub mod Typed
pub mod Plain
mod Tests
use mathlib.Core.Option
use api_to_dns.Prelude.{
  not, ℕ, Bool, true, false, ◌≡◌, Option, none, some, List, [], ◌∷◌, ◌++◌, ◌==◌, if◌then◌else◌,
  String,
}
use api_to_dns.Text.{
  Text, str, ◌===◌, contains, is_empty, strip, lower, show, int_of, ℤ, nonnegative, negative,
}
use api_to_dns.Fault.{
  other, raised, Result, ok, err, Fault, ◌>>=◌, invalid_setting, unregistered_setting,
}
use api_to_dns.SettingsStore.Registry.{
  ValueType, string, boolean, integer, json, SettingSpec, get_spec,
}

-- A value that a setting takes or has; `nothing` is None.
pub data Value (Json : Type 0) : Type 0 where
  nothing : Value Json
  text : Text → Value Json
  flag : Bool → Value Json
  number : ℤ → Value Json
  structure : Json → Value Json

-- Fernet, json.dumps with sorted keys, json.loads with `none` for its error, str and bool.
pub record Codec : Type 1 where
  pub Json : Type 0
  pub encrypt : Text → Text
  pub decrypt : Text → Text
  pub dumps : Value Json → Text
  pub loads : Text → Option (Value Json)
  pub shown : Json → Text
  pub truthy : Json → Bool

-- What is encrypted can be decrypted, and a JSON text is read back; it is never blank.
pub record IsCodec (codec : Codec) : Type 0 where
  pub decrypts : (s : Text) → codec.decrypt (codec.encrypt s) ≡ s
  pub loads_back : (v : Value codec.Json) → codec.loads (codec.dumps v) ≡ some v
  pub not_blank : (v : Value codec.Json) → is_empty (strip (codec.dumps v)) ≡ false

-- The rows of the table, with the name and the encrypted value.
abbrev pub Settings : Type 0
Settings = List (Text × Text)

unfoldable pub row_of : Text → Settings → Option Text
row_of name [] = none
row_of name ((key, value) ∷ rows) = if key === name then some value else row_of name rows

unfoldable pub put_row : Text → Text → Settings → Settings
put_row name value [] = (name, value) ∷ []
put_row name value ((key, old) ∷ rows) =
    if key === name then (key, value) ∷ rows else (key, old) ∷ put_row name value rows

unfoldable pub delete_setting : Text → Settings → Settings
delete_setting name [] = []
delete_setting name ((key, value) ∷ rows) =
    if key === name then rows else (key, value) ∷ delete_setting name rows

abbrev pub truthy_texts : List Text
truthy_texts = str "1" ∷ str "true" ∷ str "yes" ∷ str "on" ∷ str "enabled" ∷ []

abbrev pub falsy_texts : List Text
falsy_texts = str "0" ∷ str "false" ∷ str "no" ∷ str "off" ∷ str "disabled" ∷ [] ∷ []

-- str(n)
unfoldable pub show_int : ℤ → Text
show_int (nonnegative n) = show n
show_int (negative n) = b'-' ∷ show n

abbrev pub is_zero : ℤ → Bool
is_zero (nonnegative n) = n == 0
is_zero (negative n) = n == 0

abbrev pub int_or : Text → Option ℤ → Result ℤ
int_or key none = err (invalid_setting key)
int_or key (some n) = ok n

module _ (codec : Codec) where
  open codec use {Json, encrypt, decrypt, dumps, loads, shown, truthy}

  unfoldable pub get_setting : Text → Settings → Option Text
  get_setting name rows = Option.map decrypt (row_of name rows)

  unfoldable pub set_setting : Text → Text → Settings → Settings
  set_setting name value rows = put_row name (encrypt value) rows

  -- bool(value)
  abbrev pub truth : Value Json → Bool
  truth nothing = false
  truth (text s) = not (is_empty s)
  truth (flag b) = b
  truth (number n) = not (is_zero n)
  truth (structure j) = truthy j

  -- int(value); the TypeErrors are of no class that is told apart.
  abbrev pub to_int : Text → Value Json → Result ℤ
  to_int key nothing = err (raised other (str "TypeError"))
  to_int key (text s) = int_or key (int_of s)
  to_int key (flag b) = ok (nonnegative (if b then 1 else 0))
  to_int key (number n) = ok n
  to_int key (structure j) = err (raised other (str "TypeError"))

  -- str(value), and "" for None
  abbrev pub to_str : Value Json → Text
  to_str nothing = []
  to_str (text s) = s
  to_str (flag b) = if b then str "True" else str "False"
  to_str (number n) = show_int n
  to_str (structure j) = shown j

  abbrev pub bool_of : Text → Text → Result (Value Json)
  bool_of key lowered =
      if contains truthy_texts lowered
      then ok (flag true)
      else if contains falsy_texts lowered
      then ok (flag false)
      else err (invalid_setting key)

  abbrev pub json_or : Text → Option (Value Json) → Result (Value Json)
  json_or key none = err (invalid_setting key)
  json_or key (some value) = ok value

  abbrev pub without_value : ValueType → Value Json
  without_value json = nothing
  without_value boolean = flag false
  without_value integer = number (nonnegative 0)
  without_value string = text []

  abbrev pub read_value : Text → ValueType → Text → Result (Value Json)
  read_value key string raw = ok (text raw)
  read_value key boolean raw = bool_of key (lower (strip raw))
  read_value key integer raw = int_or key (int_of raw) >>= λ n. ok (number n)
  read_value key json raw = if is_empty (strip raw) then ok nothing else json_or key (loads raw)

  abbrev pub parse_raw : SettingSpec → Option Text → Result (Value Json)
  parse_raw spec none = ok (without_value spec.value_type)
  parse_raw spec (some raw) = read_value spec.key spec.value_type raw

  abbrev pub or_default_text : Option Text → Option Text → Option Text
  or_default_text none default = default
  or_default_text (some raw) default = some raw

  unfoldable pub parse_typed : SettingSpec → Option Text → Result (Value Json)
  parse_typed spec raw = parse_raw spec (or_default_text raw spec.default)

  abbrev pub encode_as : Text → ValueType → Value Json → Result Text
  encode_as key boolean value = ok (if truth value then str "true" else str "false")
  encode_as key integer value = to_int key value >>= λ n. ok (show_int n)
  encode_as key json value = ok (dumps value)
  encode_as key string value = ok (to_str value)

  unfoldable pub encode_typed : SettingSpec → Value Json → Result Text
  encode_typed spec value = encode_as spec.key spec.value_type value

  unfoldable pub get_typed_setting : SettingSpec → Settings → Result (Value Json)
  unfolding parse_typed get_setting
  get_typed_setting spec rows = parse_typed spec (get_setting spec.key rows)

  unfoldable pub set_typed_setting : SettingSpec → Value Json → Settings → Result Settings
  unfolding encode_typed set_setting
  set_typed_setting spec value rows =
      encode_typed spec value >>= λ encoded. ok (set_setting spec.key encoded rows)

  abbrev pub spec_or : Text → Option SettingSpec → Result SettingSpec
  spec_or key none = err (unregistered_setting key)
  spec_or key (some spec) = ok spec

  unfoldable pub require_spec : Text → Result SettingSpec
  require_spec key = spec_or key (get_spec key)

  unfoldable pub get_typed_setting_by_key : Text → Settings → Result (Value Json)
  unfolding require_spec get_typed_setting
  get_typed_setting_by_key key rows = require_spec key >>= λ spec. get_typed_setting spec rows

  unfoldable pub set_typed_setting_by_key : Text → Value Json → Settings → Result Settings
  unfolding require_spec set_typed_setting
  set_typed_setting_by_key key value rows =
      require_spec key >>= λ spec. set_typed_setting spec value rows
