-- ===== src/Activity/Tests.antt =====
-- The activity log at concrete settings, rows and events.
use api_to_dns.Prelude.{
  ◌&&◌, find_first, if◌then◌else◌, some_of, ℕ, ◌+◌, ◌*◌, ◌≡◌, ◌≤◌, refl, true, false, not, Bool,
  none, some, Option, [], ◌∷◌, arith, keep, length,
}
use api_to_dns.Text.{◌===◌, Text, str, text_runs, strip, lower, starts_with}
use api_to_dns.Levels.{log_category_security, security_event_prefixes}
use api_to_dns.SettingsStore.Plain.{plain}
use api_to_dns.Syslog.Forwarder.{init}
use api_to_dns.Activity.Redaction.{
  Details, text, dict, end, field, redacted, redact_details, key_is_sensitive, has_text, capped,
  capped_at,
}
use api_to_dns.Activity.Redacted.{IsSafe, redact_details-IsSafe_idem}
use api_to_dns.SettingsStore.{get_typed_setting_by_key, row_of}
use api_to_dns.SettingsStore.Registry.{get_spec}
use api_to_dns.Activity.{ActivityLog, Emission, normalize_category, get_retention_days, take_bytes}
use api_to_dns.Activity.Log.{
  clean_up, insert_by_time, order_by_time, Platform, Instant, Site, Query, row_for, emit_with,
  run_retention_cleanup, selects, query_activity_logs,
}
use api_to_dns.Activity.Retention.{IsCleaned, run_retention_cleanup-IsCleaned}
use api_to_dns.Activity.Emitted.{Appends, Emits, emit_with-Emits, emit_with-security}
use api_to_dns.Activity.Pages.{IsOrdered, count, pages, pages-found}

abbrev secret : Details
secret =
    dict (field (str "API_Key") (text (str "s3cret")) (field (str "zone") (text (str "a")) end))

hidden_secret :
    redact_details secret
    ≡ dict (field (str "API_Key") (text redacted) (field (str "zone") (text (str "a")) end))
unfolding redact_details key_is_sensitive has_text capped capped_at some_of text_runs
hidden_secret = refl

redact_details-IsSafe_idem_example :
    IsSafe (redact_details secret)
    × (redact_details (redact_details secret) ≡ redact_details secret)
redact_details-IsSafe_idem_example = redact_details-IsSafe_idem secret

-- Two bytes of a character of three are left out.
cut_inside : take_bytes 3 (b'a' ∷ 0x20ac ∷ []) ≡ b'a' ∷ []
unfolding take_bytes
cut_inside = refl

abbrev first_of : Text → Option ℕ
first_of [] = none
first_of (c ∷ s) = some c

abbrev platform : Platform
platform = record {
  codec = plain;
  dumps = λ d. str "{}";
  snapshot = λ row. record {
    timestamp_iso = [];
    level = row.level;
    event_type = row.event_type;
    payload = [];
  };
  isoformat = λ time. time ∷ [];
  fromisoformat = first_of;
}

abbrev login : Emission
login = record {
  event_type = str "auth.login";
  level = str "verbose";
  category = none;
  status = none;
  actor_type = none;
  actor_id = none;
  actor_label = some (str "ann");
  zone_name = none;
  record_name = none;
  message = none;
  details = some secret;
  request_method = none;
  request_path = none;
  request_status_code = none;
  request_ip = none;
  evaluate_alerts = true;
}

abbrev day : ℕ
day = 86400

abbrev row_at : ℕ → ActivityLog
row_at time = record {
  timestamp = time;
  level = str "INFORMATIONAL";
  category = some (str "dns");
  event_type = str "dns.created";
  status = none;
  actor_type = none;
  actor_id = none;
  actor_label = none;
  zone_name = none;
  record_name = none;
  message = none;
  details_json = none;
  request_method = none;
  request_path = none;
  request_status_code = none;
  request_ip = none;
}

-- Only errors are stored, for ten days.
abbrev site : Site
site = record {
  settings = (str "log_level", str "ERROR") ∷ (str "activity_retention_days", str "10") ∷ [];
  logs = row_at 0 ∷ row_at (95 * day) ∷ [];
  rules = [];
  last_retention = none;
  forwarder = init;
  attempts = [];
}

abbrev now : Instant
now = record { utc = 100 * day; monotonic = 50 }

abbrev no_change : ActivityLog → Site → Site
no_change row s = s

run_retention_cleanup-IsCleaned_example :
    IsCleaned platform
      (100 * day)
      (100 * day + 60)
      site
      (run_retention_cleanup platform true (100 * day) site)
run_retention_cleanup-IsCleaned_example =
    run_retention_cleanup-IsCleaned platform (100 * day) (100 * day + 60) site (omega arith)

-- A retention that reaches behind the year 1
endless : run_retention_cleanup platform true (9 * day) site ≡ (none, site)
unfolding run_retention_cleanup clean_up get_retention_days get_typed_setting_by_key get_spec
    find_first row_of text_runs
endless = refl

emit_with-Emits_example :
    Emits platform no_change now login site (emit_with platform no_change now login site)
emit_with-Emits_example = emit_with-Emits platform no_change now login site

own_category : normalize_category login.category ≡ none
unfolding normalize_category text_runs
own_category = refl

prefixed : some_of (starts_with (lower (strip login.event_type))) security_event_prefixes ≡ true
unfolding some_of text_runs
prefixed = refl

emit_with-security_example :
    (after : Site) × Appends platform no_change now login site after
    × ((row_for platform now.utc login).category ≡ some log_category_security)
    × (emit_with platform no_change now login site ≡ (
      some (row_for platform now.utc login),
      if login.evaluate_alerts && not (login.event_type === str "alert.email_failed")
          then no_change (row_for platform now.utc login) after
          else after,
    ))
emit_with-security_example =
    emit_with-security platform no_change now login own_category prefixed site

abbrev no_like : Text → Text → Bool
no_like s pattern = false

abbrev all_events : Query
all_events = record {
  event_type = str "dns.created";
  level = [];
  category = [];
  status = [];
  zone_name = [];
  actor = [];
  text_query = [];
  start = some 1;
  end = none;
}

few : (query_activity_logs no_like all_events 1 0 site.logs).1 ≤ 2 * 1
unfolding query_activity_logs selects order_by_time insert_by_time keep text_runs
few = omega arith

-- Two pages of one row each.
pages-found_example :
    IsOrdered (pages no_like all_events site.logs 1 2 0)
    × (count (λ row. true) (pages no_like all_events site.logs 1 2 0)
        ≡ count (λ row. true) (keep (selects no_like all_events) site.logs))
    × ((query_activity_logs no_like all_events 1 0 site.logs).1
        ≡ length (keep (selects no_like all_events) site.logs))
pages-found_example = pages-found no_like all_events site.logs 1 2 (λ row. true) few
