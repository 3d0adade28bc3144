-- ===== src/Alerts.antt =====
-- alerting.py: the SMTP settings, sending, and the alert rules. What a server does with a message, the
-- formatting of templates and the identity of the system are arguments.
pub mod Mail
pub mod Rules
pub mod Session
pub mod Guarded
pub mod Cooldown
mod Tests
use api_to_dns.Prelude.{
  ℕ, ◌+◌, ◌*◌, ◌-◌, Bool, true, false, not, ◌&&◌, ◌||◌, Option, none, some, List, [], ◌∷◌, ◌++◌,
  map, keep, ltb, leb, if◌then◌else◌,
}
use api_to_dns.Text.{
  Text, ℤ, nonnegative, negative, str, ◌===◌, contains, is_empty, strip, lower, split, join,
}
use api_to_dns.Fault.{Result, ok, err, Fault, insecure_smtp, ◌>>=◌}
use api_to_dns.Levels.{rank_of}
use api_to_dns.SettingsStore.{Codec, text, flag, number, Settings, set_typed_setting_by_key}
use api_to_dns.SettingsStore.Typed.{except, typed_bool, typed_int, typed_str}
use api_to_dns.Syslog.{or_default}
use api_to_dns.Activity.Redaction.{Details, scalar, has_text}
use api_to_dns.Activity.{ActivityLog, normalize_level, normalize_category, text_of, given}
use api_to_dns.Activity.Log.{Platform, Instant, Site, emit_with}

-- [part.strip() for part in value.split(",") if part.strip()]
unfoldable pub parse_csv : Text → List Text
parse_csv value = keep (λ part. not (is_empty part)) (map strip (split b',' value))

abbrev pub secure_transports : List Text
secure_transports = str "starttls" ∷ str "ssl" ∷ []

-- Whether `validate_smtp_transport_security` has a message.
unfoldable pub refuses_transport : Bool → Text → Text → Text → Bool → Bool
refuses_transport anonymous username password security allow_insecure_auth =
    not anonymous
    && (not (is_empty (strip username)) || not (is_empty (strip password)))
    && not (contains secure_transports (lower (strip (or_default security (str "starttls")))))
    && not allow_insecure_auth

pub record SmtpConfig : Type 0 where
  pub servers : List Text
  pub port : ℤ
  pub anonymous : Bool
  pub username : Text
  pub password : Text
  pub from_address : Text
  pub security : Text
  pub timeout : ℤ
  pub allow_insecure_auth : Bool

abbrev pub known_security : Text → Text
known_security security =
    if contains (str "none" ∷ secure_transports) security then security else str "starttls"

abbrev pub is_some_text : Text → Bool
is_some_text s = not (is_empty s)

module _ (codec : Codec) where
  unfoldable pub get_smtp_config : Settings → SmtpConfig
  get_smtp_config rows = record {
    servers = parse_csv (typed_str codec (str "smtp_servers") rows);
    port = typed_int codec (str "smtp_port") (nonnegative 587) rows;
    anonymous = typed_bool codec (str "smtp_anonymous") rows;
    username = typed_str codec (str "smtp_username") rows;
    password = typed_str codec (str "smtp_password") rows;
    from_address = typed_str codec (str "smtp_from") rows;
    security =
        known_security (
          or_default (lower (strip (typed_str codec (str "smtp_security") rows))) (str "starttls"));
    timeout = typed_int codec (str "smtp_timeout") (nonnegative 10) rows;
    allow_insecure_auth = typed_bool codec (str "smtp_allow_insecure_auth") rows;
  }

  -- The arguments of `set_smtp_config`, with the servers as one text.
  pub record SmtpForm : Type 0 where
    pub servers : Text
    pub port : ℤ
    pub anonymous : Bool
    pub username : Text
    pub password : Text
    pub from_address : Text
    pub security : Text
    pub timeout : ℤ
    pub allow_insecure_auth : Bool
    pub preserve_password_if_blank : Bool

  -- The password that is in force afterwards.
  abbrev pub effective_password : SmtpForm → Settings → Text
  effective_password form rows =
      if is_some_text form.password || not form.preserve_password_if_blank
      then form.password
      else typed_str codec (str "smtp_password") rows

  abbrev pub set_password : SmtpForm → Settings → Result Settings
  set_password form rows =
      if is_some_text form.password || not form.preserve_password_if_blank
      then set_typed_setting_by_key codec (str "smtp_password") (text form.password) rows
      else ok rows

  unfoldable pub set_smtp_config : SmtpForm → Settings → Result Settings
  set_smtp_config form rows =
      let security = known_security (lower (strip (or_default form.security (str "starttls")))) in
      if refuses_transport form.anonymous form.username (effective_password form rows) security
        form.allow_insecure_auth
      then err insecure_smtp
      else do
        rows ← set_typed_setting_by_key codec (str "smtp_servers") (text form.servers) rows
        rows ← set_typed_setting_by_key codec (str "smtp_port") (number form.port) rows
        rows ← set_typed_setting_by_key codec (str "smtp_anonymous") (flag form.anonymous) rows
        rows ← set_typed_setting_by_key codec (str "smtp_username") (text form.username) rows
        rows ← set_password form rows
        rows ← set_typed_setting_by_key codec (str "smtp_from") (text form.from_address) rows
        rows ← set_typed_setting_by_key codec (str "smtp_security") (text security) rows
        rows ← set_typed_setting_by_key codec (str "smtp_timeout") (number form.timeout) rows
        set_typed_setting_by_key codec (str "smtp_allow_insecure_auth")
            (flag form.allow_insecure_auth) rows
