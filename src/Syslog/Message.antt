-- ===== src/Syslog/Message.antt =====
-- remote_syslog.py: the RFC 5424 message of an event, and its frame in a stream.
use api_to_dns.Prelude.{
  ℕ, ◌+◌, ◌*◌, Bool, true, false, ◌||◌, [], ◌∷◌, ◌++◌, map, ltb, leb, ◌==◌, length, take,
  if◌then◌else◌,
}
use api_to_dns.Text.{Text, str, is_lower, is_upper, is_digit, strip, lower, upper, show}
use api_to_dns.Levels.{rank_of}
use api_to_dns.Syslog.{
  SyslogConfig, or_default, nilvalue, code_or, syslog_facility, syslog_severity, sanitize_hostname,
}

-- `payload` is the JSON text of `as_dict()`, ASCII as `ensure_ascii` makes it.
pub record ActivityLogSnapshot : Type 0 where
  pub timestamp_iso : Text
  pub level : Text
  pub event_type : Text
  pub payload : Text

-- [A-Za-z0-9._-]
abbrev pub is_name_char : ℕ → Bool
is_name_char c = is_upper c || is_lower c || is_digit c || c == b'.' || c == b'_' || c == b'-'

-- _SD_NAME_RE.sub("_", s): each run of other characters becomes one underscore.
unfoldable pub replace_runs : Bool → Text → Text
replace_runs within [] = []
replace_runs within (c ∷ s) =
    let name = c ∷ replace_runs false s in
    let other = replace_runs true s in
    if is_name_char c then name else if within then other else b'_' ∷ other

unfoldable pub sanitize_msg_id : Text → Text
sanitize_msg_id value = or_default (take 48 (replace_runs false (strip value))) nilvalue

unfoldable pub meets_minimum_level : Text → Text → Bool
meets_minimum_level event_level minimum_level =
    leb (rank_of (upper (strip minimum_level))) (rank_of (upper (strip event_level)))

unfoldable pub priority : ActivityLogSnapshot → SyslogConfig → ℕ
priority event config =
    code_or 16 (lower (or_default config.facility (str "local0"))) syslog_facility * 8
    + code_or 6 (upper event.level) syslog_severity

-- encode("ascii", errors="replace")
abbrev pub ascii : ℕ → ℕ
ascii c = if ltb c 128 then c else b'?'

unfoldable pub encode_rfc5424 : ActivityLogSnapshot → SyslogConfig → Text
encode_rfc5424 event config = map ascii (
    str "<"
    ++ (show (priority event config)
        ++ (str ">1 "
            ++ (event.timestamp_iso
                ++ (str " "
                    ++ (sanitize_hostname config.hostname
                        ++ (str " api-to-dns - "
                            ++ (sanitize_msg_id event.event_type
                                ++ (str " - " ++ event.payload)))))))))

unfoldable pub frame_tcp : Text → Text
frame_tcp message = show (length message) ++ b' ' ∷ message
