-- ===== src/Activity.antt =====
-- activity_logging.py: the activity log. Times are seconds; what `utc_now` returns is an argument, one
-- instant for an event. JSON and ISO times are arguments too, and so is what LIKE matches.
pub mod Redaction
pub mod Redacted
pub mod Log
pub mod Retention
pub mod Emitted
pub mod Pages
pub mod Levels
mod Tests
use mathlib.Core.Option
use api_to_dns.Prelude.{
  ℕ, zero, suc, ◌+◌, ◌*◌, ◌-◌, Bool, true, false, not, ◌&&◌, ◌||◌, Option, none, some, List, [],
  ◌∷◌, ◌++◌, ltb, leb, ◌==◌, length, take, drop, keep, some_of, if◌then◌else◌,
}
use api_to_dns.Text.{
  Text, str, ◌===◌, contains, is_empty, strip, lower, upper, starts_with, has_char, ℤ, nonnegative,
  negative,
}
use api_to_dns.Fault.{Result, ok, err, Fault, unsupported_level, ◌>>=◌}
use api_to_dns.Levels.{log_level_values, rank_of, log_category_security, security_event_prefixes}
use api_to_dns.SettingsStore.{
  Codec, Value, text, number, Settings, to_int, get_typed_setting_by_key, set_typed_setting_by_key,
}
use api_to_dns.SettingsStore.Typed.{except, typed_str}
use api_to_dns.Activity.Redaction.{Details, redact_details, details_byte_cap, truncation_mark}

abbrev pub setting_log_level : Text
setting_log_level = str "log_level"

abbrev pub setting_retention_days : Text
setting_retention_days = str "activity_retention_days"

abbrev pub setting_last_retention : Text
setting_last_retention = str "last_activity_retention_cleanup"

abbrev pub default_log_level : Text
default_log_level = str "INFORMATIONAL"

-- max(1, n)
abbrev pub at_least_one_day : ℤ → ℕ
at_least_one_day (negative n) = 1
at_least_one_day (nonnegative n) = if ltb n 1 then 1 else n

unfoldable pub normalize_level : Text → Text
normalize_level level =
    let cleaned = upper (strip level) in
    if contains log_level_values cleaned then cleaned else default_log_level

abbrev pub given : Text → Option Text
given [] = none
given (c ∷ s) = some (c ∷ s)

abbrev pub text_of : Option Text → Text
text_of none = []
text_of (some s) = s

unfoldable pub normalize_category : Option Text → Option Text
normalize_category category = given (lower (strip (text_of category)))

-- s.split(".", 1)[0]
unfoldable pub before_dot : Text → Text
before_dot [] = []
before_dot (c ∷ s) = let more = before_dot s in if c == b'.' then [] else c ∷ more

abbrev pub category_of : Text → Option Text
category_of [] = none
category_of (c ∷ s) =
    if some_of (starts_with (c ∷ s)) security_event_prefixes
    then some log_category_security
    else some (before_dot (c ∷ s))

unfoldable pub infer_event_category : Text → Option Text
infer_event_category event_type = category_of (lower (strip event_type))

abbrev pub is_security : Option Text → Bool
is_security none = false
is_security (some category) = category === log_category_security

unfoldable pub should_store_event : Text → Text → Option Text → Bool
should_store_event event_level configured_level category =
    is_security (normalize_category category)
    || leb (rank_of (normalize_level configured_level)) (rank_of (normalize_level event_level))

pub record ActivityLog : Type 0 where
  pub timestamp : ℕ
  pub level : Text
  pub category : Option Text
  pub event_type : Text
  pub status : Option Text
  pub actor_type : Option Text
  pub actor_id : Option Text
  pub actor_label : Option Text
  pub zone_name : Option Text
  pub record_name : Option Text
  pub message : Option Text
  pub details_json : Option Text
  pub request_method : Option Text
  pub request_path : Option Text
  pub request_status_code : Option ℤ
  pub request_ip : Option Text

pub record AlertRule : Type 0 where
  pub id : ℕ
  pub enabled : Bool
  pub name : Text
  pub event_type : Text
  pub category : Text
  pub minimum_level : Text
  pub message_contains : Text
  pub email_recipients : Text
  pub email_subject_template : Text
  pub email_body_template : Text
  pub cooldown_minutes : ℕ
  pub last_triggered_at : Option ℕ

-- What is called on an SMTP client: the connection, over SSL or not, to a port and with a timeout, and
-- the methods, a login with its user name and password.
pub data Command : Type 0 where
  connect : Bool → ℤ → ℤ → Command
  ehlo : Command
  starttls : Command
  login : Text → Text → Command
  send_message : Command

-- A try to send a message over a server: what was called, and whether the server took the message.
pub record Attempt : Type 0 where
  pub server : Text
  pub commands : List Command
  pub sender : Text
  pub recipients : List Text
  pub subject : Text
  pub body : Text
  pub taken : Bool

-- The keyword arguments of `emit_activity_event`.
pub record Emission : Type 0 where
  pub event_type : Text
  pub level : Text
  pub category : Option Text
  pub status : Option Text
  pub actor_type : Option Text
  pub actor_id : Option Text
  pub actor_label : Option Text
  pub zone_name : Option Text
  pub record_name : Option Text
  pub message : Option Text
  pub details : Option Details
  pub request_method : Option Text
  pub request_path : Option Text
  pub request_status_code : Option ℤ
  pub request_ip : Option Text
  pub evaluate_alerts : Bool

-- The bytes of a character in UTF-8.
abbrev pub utf8_length : ℕ → ℕ
utf8_length c = if ltb c 0x80 then 1 else if ltb c 0x800 then 2 else if ltb c 0x10000 then 3 else 4

unfoldable pub byte_length : Text → ℕ
byte_length [] = 0
byte_length (c ∷ s) = utf8_length c + byte_length s

-- s.encode("utf-8")[:n].decode("utf-8", errors="ignore")
unfoldable pub take_bytes : ℕ → Text → Text
take_bytes n [] = []
take_bytes n (c ∷ s) =
    let more = take_bytes (n - utf8_length c) s in if ltb n (utf8_length c) then [] else c ∷ more

unfoldable pub capped_json : ℕ → Text → Text
capped_json cap encoded =
    if ltb cap (byte_length encoded) then take_bytes cap encoded ++ truncation_mark else encoded

-- `dumps` is `json.dumps(…, default=str)`, which takes every value here.
unfoldable pub details_to_json : (Details → Text) → Option Details → Option Text
details_to_json dumps details =
    Option.map (λ d. capped_json details_byte_cap (dumps (redact_details d))) details

module _ (codec : Codec) where
  unfoldable pub get_log_level : Settings → Text
  get_log_level rows =
      let raw = upper (strip (typed_str codec setting_log_level rows)) in
      if contains log_level_values raw then raw else default_log_level

  unfoldable pub set_log_level : Text → Settings → Result (Text × Settings)
  set_log_level value rows =
      let cleaned = upper (strip value) in
      if contains log_level_values cleaned
      then (set_typed_setting_by_key codec setting_log_level (text cleaned) rows >>= λ after.
          ok (cleaned, after))
      else err (unsupported_level value)

  unfoldable pub get_retention_days : Settings → ℕ
  get_retention_days rows = except 90 (
      get_typed_setting_by_key codec setting_retention_days rows
      >>= to_int codec setting_retention_days
      >>= λ days. ok (at_least_one_day days))

  unfoldable pub set_retention_days : ℤ → Settings → Result (ℕ × Settings)
  set_retention_days value rows =
      let days = at_least_one_day value in
      set_typed_setting_by_key codec setting_retention_days (number (nonnegative days)) rows
      >>= λ after. ok (days, after)
