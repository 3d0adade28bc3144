-- ===== src/Activity/Levels.antt =====
-- The level and the retention of the activity log, as settings.
use api_to_dns.Prelude.{find_first, ℕ, ◌≤◌, ◌≡◌, refl, true, false, some, every, arith}
use api_to_dns.Text.{Text, str, ◌===◌, contains, strip, upper, ℤ, nonnegative, negative, text_runs}
use api_to_dns.Text.Equal.{every-contains, eq_of_===}
use api_to_dns.Fault.{ok}
use api_to_dns.Levels.{log_level_values}
use api_to_dns.SettingsStore.{Codec, IsCodec, text, number, Settings}
use api_to_dns.SettingsStore.Registry.{string, integer, get_spec, spec_of}
use api_to_dns.SettingsStore.Typed.{typed_str}
use api_to_dns.SettingsStore.Stored.{
  a_text, a_number, get_typed_setting_by_key-set_typed_setting_by_key,
}
use api_to_dns.Activity.{
  setting_log_level, setting_retention_days, at_least_one_day, get_log_level, set_log_level,
  get_retention_days, set_retention_days,
}

level_spec :
    get_spec setting_log_level
    ≡ some (spec_of "log_level" string (some (str "INFORMATIONAL")) false)
unfolding get_spec find_first ◌===◌
level_spec = refl

retention_spec :
    get_spec setting_retention_days
    ≡ some (spec_of "activity_retention_days" integer (some (str "90")) false)
unfolding get_spec find_first ◌===◌
retention_spec = refl

levels_fixed : every (λ t. upper (strip t) === t) log_level_values ≡ true
unfolding every text_runs
levels_fixed = refl

-- A level is written as it is read.
level_fix : (level : Text) → contains log_level_values level ≡ true → upper (strip level) ≡ level
level_fix level h =
    eq_of_=== (upper (strip level)) level
      (every-contains (λ t. upper (strip t) === t) log_level_values level levels_fixed h)

at_least_one_day-ge : (value : ℤ) → 1 ≤ at_least_one_day value
at_least_one_day-ge (negative n) = omega arith
at_least_one_day-ge (nonnegative n) = ground arith

at_least_one_day_fix : (n : ℕ) → 1 ≤ n → at_least_one_day (nonnegative n) ≡ n
at_least_one_day_fix n h = ground arith

module _ (codec : Codec) (laws : IsCodec codec) (rows : Settings) where
  open codec use {Json}

  -- A level that is known, up to case and white space, is stored, and is then the level in force.
  pub get_log_level-set_log_level :
      (value : Text)
      → contains log_level_values (upper (strip value)) ≡ true
      → (after : Settings) × (set_log_level codec value rows ≡ ok (upper (strip value), after))
        × (get_log_level codec after ≡ upper (strip value))
  unfolding set_log_level get_log_level typed_str
  get_log_level-set_log_level value h =
      let (after, written, back) =
        get_typed_setting_by_key-set_typed_setting_by_key codec laws setting_log_level _
          (text (upper (strip value))) rows level_spec (a_text (upper (strip value))) in
      (after, rw (h, written), rw (back, level_fix (upper (strip value)) h, h))

  -- A retention is stored as one day at least, and is then the one in force.
  pub get_retention_days-set_retention_days :
      (value : ℤ)
      → (after : Settings) × (set_retention_days codec value rows
          ≡ ok (at_least_one_day value, after))
        × (get_retention_days codec after ≡ at_least_one_day value)
        × (1 ≤ get_retention_days codec after)
  unfolding set_retention_days get_retention_days
  get_retention_days-set_retention_days value =
      let days = at_least_one_day value in
      let (after, written, back) =
        get_typed_setting_by_key-set_typed_setting_by_key codec laws setting_retention_days _
          (number (nonnegative days)) rows retention_spec (a_number (nonnegative days) tt) in
      let same = at_least_one_day_fix days (at_least_one_day-ge value) in
      (after, rw written, rw (back, same), rw (back, same) (at_least_one_day-ge value))
