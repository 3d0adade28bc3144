-- ===== src/Syslog.antt =====
-- remote_syslog.py: the configuration of the forwarder, and the messages that it sends.
-- A port, a timeout and a queue size come as what `int` or `float` made of the caller's value,
-- `none` for their exceptions. The JSON of an event is a field of its snapshot.
pub mod Message
pub mod Forwarder
pub mod System
pub mod Current
pub mod Worker
pub mod Sending
pub mod Schedules
pub mod Held
pub mod Chosen
pub mod Drain
pub mod Bounded
pub mod Pending
pub mod Frames
pub mod Fields
pub mod Valid
mod Tests
use api_to_dns.Prelude.{
  ℕ, ◌*◌, ◌+◌, Bool, true, false, not, ◌&&◌, ◌||◌, ◌≡◌, Option, none, some, List, [], ◌∷◌, ◌++◌,
  map, ltb, leb, ◌==◌, if◌then◌else◌, take, keep,
}
use api_to_dns.Text.{
  Text, str, ◌===◌, contains, is_empty, is_lower, is_upper, is_digit, strip, lower, upper, show, ℤ,
  nonnegative, negative,
}
use api_to_dns.Fault.{
  Result, ok, err, Fault, require, ◌>>=◌, ◌>>◌, unknown_protocol, port_out_of_range,
  timeout_not_positive, timeout_out_of_range, unsupported_facility, unsupported_level,
  queue_size_out_of_range, host_required, plaintext_not_allowed,
}
use api_to_dns.Levels.{log_level_values, rank_of}

-- s or default
abbrev pub or_default : Text → Text → Text
or_default [] default = default
or_default (c ∷ s) default = c ∷ s

abbrev pub nilvalue : Text
nilvalue = str "-"

abbrev pub syslog_protocols : List Text
syslog_protocols = str "tls" ∷ str "udp" ∷ str "tcp" ∷ []

abbrev pub plaintext_protocols : List Text
plaintext_protocols = str "udp" ∷ str "tcp" ∷ []

abbrev pub syslog_facility : List (Text × ℕ)
syslog_facility =
    (str "kern", 0)
    ∷ (str "user", 1)
    ∷ (str "mail", 2)
    ∷ (str "daemon", 3)
    ∷ (str "auth", 4)
    ∷ (str "syslog", 5)
    ∷ (str "lpr", 6)
    ∷ (str "news", 7)
    ∷ (str "uucp", 8)
    ∷ (str "cron", 9)
    ∷ (str "authpriv", 10)
    ∷ (str "ftp", 11)
    ∷ (str "local0", 16)
    ∷ (str "local1", 17)
    ∷ (str "local2", 18)
    ∷ (str "local3", 19)
    ∷ (str "local4", 20)
    ∷ (str "local5", 21)
    ∷ (str "local6", 22)
    ∷ (str "local7", 23)
    ∷ []

abbrev pub syslog_severity : List (Text × ℕ)
syslog_severity =
    (str "VERBOSE", 7) ∷ (str "INFORMATIONAL", 6) ∷ (str "WARNING", 4) ∷ (str "ERROR", 3) ∷ []

-- codes.get(name, default)
unfoldable pub code_or : ℕ → Text → List (Text × ℕ) → ℕ
code_or default name [] = default
code_or default name ((key, value) ∷ codes) =
    if key === name then value else code_or default name codes

unfoldable pub has_code : Text → List (Text × ℕ) → Bool
has_code name [] = false
has_code name ((key, value) ∷ codes) = key === name || has_code name codes

-- A `float` as the timeouts use it: NaN, or a number of milliseconds.
pub data Seconds : Type 0 where
  nan : Seconds
  milliseconds : ℤ → Seconds

pub record SyslogConfig : Type 0 where
  pub enabled : Bool
  pub host : Text
  pub port : ℕ
  pub protocol : Text
  pub facility : Text
  pub minimum_level : Text
  pub timeout : Seconds
  pub queue_size : ℕ
  pub allow_insecure_plaintext : Bool
  pub hostname : Text
  pub generation : ℕ

-- SyslogConfig()
abbrev pub default_config : SyslogConfig
default_config = record {
  enabled = false;
  host = [];
  port = 6514;
  protocol = str "tls";
  facility = str "local0";
  minimum_level = str "INFORMATIONAL";
  timeout = milliseconds (nonnegative 5000);
  queue_size = 1000;
  allow_insecure_plaintext = false;
  hostname = nilvalue;
  generation = 0;
}

unfoldable pub uses_plaintext : SyslogConfig → Bool
uses_plaintext config = contains plaintext_protocols config.protocol

abbrev pub space_to_underscore : ℕ → ℕ
space_to_underscore c = if c == b' ' then b'_' else c

abbrev pub is_not_break : ℕ → Bool
is_not_break c = not (c == 13 || c == 10 || c == 9)

unfoldable pub sanitize_hostname : Text → Text
sanitize_hostname value =
    or_default (take 255 (keep is_not_break (map space_to_underscore (strip value)))) nilvalue

-- a number between 1 and the limit
abbrev pub in_range : ℕ → Fault → Option ℤ → Result ℕ
in_range limit fault none = err fault
in_range limit fault (some (negative n)) = err fault
in_range limit fault (some (nonnegative n)) = if ltb n 1 || ltb limit n then err fault else ok n

-- `value <= 0 or value > 30.0`, which NaN does not meet
abbrev pub timeout_of : Option Seconds → Result Seconds
timeout_of none = err timeout_not_positive
timeout_of (some nan) = ok nan
timeout_of (some (milliseconds (negative n))) = err timeout_out_of_range
timeout_of (some (milliseconds (nonnegative n))) =
    if n == 0 || ltb 30000 n then err timeout_out_of_range else ok (milliseconds (nonnegative n))

-- The keyword arguments of `validate_syslog_config`.
pub record Settings : Type 0 where
  pub enabled : Bool
  pub host : Text
  pub port : Option ℤ
  pub protocol : Text
  pub facility : Text
  pub minimum_level : Text
  pub timeout : Option Seconds
  pub queue_size : Option ℤ
  pub allow_insecure_plaintext : Bool
  pub hostname : Text

unfoldable pub validate_syslog_config : Settings → Result SyslogConfig
validate_syslog_config s = do
  let protocol = lower (strip (or_default s.protocol (str "tls")))
  require (contains syslog_protocols protocol) unknown_protocol
  let facility = lower (strip (or_default s.facility (str "local0")))
  require (has_code facility syslog_facility) (unsupported_facility s.facility)
  let level = upper (strip (or_default s.minimum_level (str "INFORMATIONAL")))
  require (contains log_level_values level) (unsupported_level s.minimum_level)
  port ← in_range 65535 port_out_of_range s.port
  timeout ← timeout_of s.timeout
  queue_size ← in_range 5000 queue_size_out_of_range s.queue_size
  let host = strip s.host
  require (not (s.enabled && is_empty host)) host_required
  require
      (not (s.enabled && contains plaintext_protocols protocol && not s.allow_insecure_plaintext))
      plaintext_not_allowed
  ok (record {
    enabled = s.enabled;
    host = host;
    port = port;
    protocol = protocol;
    facility = facility;
    minimum_level = level;
    timeout = timeout;
    queue_size = queue_size;
    allow_insecure_plaintext = s.allow_insecure_plaintext;
    hostname = sanitize_hostname s.hostname;
    generation = 0;
  })
