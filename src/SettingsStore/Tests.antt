-- ===== src/SettingsStore/Tests.antt =====
-- Settings at concrete rows.
use api_to_dns.Prelude.{find_first, arith, ◌≡◌, refl, false, some, [], ◌∷◌}
use api_to_dns.Text.{str, ◌===◌, negative, text_runs}
use api_to_dns.Fault.{ok, err, invalid_setting, unregistered_setting}
use api_to_dns.SettingsStore.{
  number, Settings, get_setting, get_typed_setting, set_typed_setting, get_typed_setting_by_key,
  row_of, parse_typed, require_spec,
}
use api_to_dns.SettingsStore.Registry.{integer, spec_of, get_spec, SettingSpec}
use api_to_dns.SettingsStore.Stored.{a_number, get_typed_setting-set_typed_setting}
use api_to_dns.SettingsStore.Plain.{plain, plain-IsCodec}

abbrev rows : Settings
rows = (str "smtp_port", str "587") ∷ (str "ssl_enabled", str "maybe") ∷ []

abbrev port_spec : SettingSpec
port_spec = spec_of "smtp_port" integer (some (str "587")) false

other_name : (port_spec.key === str "ssl_enabled") ≡ false
unfolding ◌===◌
other_name = refl

get_typed_setting-set_typed_setting_example :
    (after : Settings) × (set_typed_setting plain port_spec (number (negative 3)) rows ≡ ok after)
    × (get_typed_setting plain port_spec after ≡ ok (number (negative 3)))
    × (get_setting plain (str "ssl_enabled") after ≡ get_setting plain (str "ssl_enabled") rows)
get_typed_setting-set_typed_setting_example =
    get_typed_setting-set_typed_setting plain plain-IsCodec port_spec (number (negative 3)) rows
      (str "ssl_enabled") (a_number (negative 3) (omega arith)) other_name

bad_flag :
    get_typed_setting_by_key plain (str "ssl_enabled") rows
    ≡ err (invalid_setting (str "ssl_enabled"))
unfolding get_typed_setting_by_key require_spec get_spec find_first get_typed_setting get_setting
    row_of parse_typed text_runs
bad_flag = refl

not_registered :
    get_typed_setting_by_key plain (str "colour") rows ≡ err (unregistered_setting (str "colour"))
unfolding get_typed_setting_by_key require_spec get_spec find_first text_runs
not_registered = refl
